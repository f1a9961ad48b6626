-- ===== src/Lib.antt =====
-- A model of parts of SiriDB server, a time series database, and theorems about it.
--
-- A database is spread over pools; a pool has one server or two, which hold the same series. A
-- series has points, pairs of a time-stamp and a value, in shards on disk and in a buffer. The parts
-- below are the data structures that this rests on; paths are those of the repository.
--
-- Base: what all modules share: lists that are indexed by native numbers as C arrays are, and
--   Boolean tests.
-- Lookup (src/siri/db/lookup.c): the table that gives the pool of a series name. `lookup_sn` and
--   `lookup_sn_raw` are the two searches, `lookup_new` builds the table: Hash compares the
--   searches, Grow and Balance say what a new pool changes.
-- Vec (src/vec/vec.c, include/vec/vec.h): the growing array, with its laws in Vec/Laws.
-- Omap (src/omap/omap.c): a map from ids to pointers as an ordered linked list.
-- Imap (src/imap/imap.c): the map from 64-bit ids to pointers that holds series and shards: 32 roots
--   and below each a tree with 32 branches. Imap/Tree has the functions on one node (`IMAP_set` is
--   `node_set`, and so on), Imap those on the map (`imap_set`, …). The map keeps a vector (Vec) of its
--   items once it was asked for: Cache and Caching say that this vector stays right. Imap/Walk has
--   `imap_walk` and `imap_walkn`, and Imap/Algebra the four operations on two maps, which return the
--   releases of items that they make (theorems: of the union).
-- Points (src/siri/db/points.c): points in the order of their time-stamps: insertion, sorting and
--   the merge of a few series.
-- SeriesMerge (the same file): `siridb_points_merge`, which drops empty series, checks their types and
--   chooses one of three merges; Gather is about `POINTS_merge_and_sort`.
-- PointsZip (the same file): the raw form of a chunk of points, the size that is kept in its `cinfo`,
--   and the interval of a series.
-- Qpack (src/qpack/qpack.c, include/qpack/qpack.h): the binary format of packages and files. Qpack has
--   the unpacker (`qp_next`, `qp_current`, `qp_skip_next`), Qpack/Pack the packer in memory and
--   Qpack/File the one that writes to a file, over an interface for the C library.
-- Base64 (src/base64/base64.c): encoding and decoding, and that they are inverse.
-- Ffile (src/siri/db/ffile.c): a file of packages for the replica, with its bytes; Layout says what
--   packages the bytes stand for (Bytes is about their end), Append and Laws what the operations do.
-- Fifo (src/siri/db/fifo.c): the queue of packages over such files. Chain says what packages a queue
--   holds, Queue (with Place and NewFile) and Pop what an append, a pop and a commit do to them, Restart
--   what is found again after a restart, and Replay is about any sequence of these.
-- Cexpr (src/cexpr/cexpr.c): the conditions behind `where`, built on a heap as the tokens come. Heap says
--   what expression a node stands for, State what the builder holds in between, Precedence what a
--   token does to that, and Groups compares with the groups between `or` (Spec). libcleri, which parses, is
--   the list of the tokens.
-- Ctree (src/ctree/ctree.c, include/ctree/ctree.h): the tree of names. Ctree has `ct_add` and `ct_get`, Pop
--   `ct_pop`, Getn `ct_getn`, Items and Values the walks. Child, Resize and Count are about the arrays of
--   nodes, Find says how a change shows in what is found, Split, Part, Write and Add follow `CT_add`
--   down to Tree, the children of Pop follow `CT_pop`, Names with Listed is the list of all names, and
--   Replay compares a sequence of both with a map.
-- Median (src/siri/db/median.c, and the three medians of src/siri/db/aggregate.c): the value at a place of values in
--   order, and the two in the middle, by parting the values at a pivot. Parts is about one parting, Find about
--   `siridb_median_find_n`, Real and Middle about `siridb_median_real`.
-- Access (src/siri/db/access.c): the access rights of users as masks and as text.
--
-- Memory: whether an allocation succeeds is an argument of the functions that allocate, so that the
-- error paths are theorems too. Pointers to items are values of a type parameter; an item is never
-- NULL. Where the code has a uint32_t, a size_t or a uint64_t whose wrap-around a caller could see,
-- `% 2 ^ w` is written out, and theorems state the bound that they need.
--
-- Fuel: the recursions of `IMAP_set`, `IMAP_add`, `IMAP_pop` and the loop of `imap_get` divide the id
-- by 32 each time; they run on 13 levels below a root, and 32 ^ 13 = 2 ^ 65 covers every 64-bit id:
-- the theorems hold for each such id, so none runs out. The merges run on the number of points to
-- go, as their output index does; the loop over the series on one more than their number.
-- `qp_skip_next` runs on a depth of recursion, which also bounds the rounds of its loops: one more than
-- the number of bytes is enough for bytes of which no size overflows; where one does, it is not followed
-- further. `cexpr_run` runs on the depth of the expression, which
-- the number of nodes bounds for one without parentheses. The searches for a median run on the number
-- of values, which gets smaller in each round; `ct_getn` on the characters of the name. All else is structural recursion.
--
-- The files of the queue have a default size, a parameter (100 MB in the code).
--
-- Not modelled: freeing memory, reference counts, other files, opening and closing of files, the
-- network, the query language (a third-party parser calls it back) but for its conditions, and floating
-- point values, which are only moved here.
pub mod Access
pub mod Base
pub mod Base64
pub mod Cexpr
pub mod Ctree
pub mod Ffile
pub mod Fifo
pub mod Imap
pub mod Lookup
pub mod Median
pub mod Omap
pub mod Points
pub mod PointsZip
pub mod Qpack
pub mod SeriesMerge
pub mod Vec
