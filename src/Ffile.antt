-- ===== src/Ffile.antt =====
-- src/siri/db/ffile.c, include/siri/db/ffile.h: one file of the queue of packages for the replica. A
-- package is the list of its bytes, header included. Packages are written from the end of the file
-- to its start, each followed by its size in four bytes, so that the oldest one is the last and is
-- popped by cutting the file. `bytes` is the file on disk. `io` says whether the calls of the C
-- library on the file succeed; where they fail, nothing is written. Opening and closing is left out.
pub mod Layout
pub mod Bytes
pub mod Append
pub mod Laws
mod Tests
use siridb_server.Base.{
  ℕ, zero, suc, ◌+◌, ◌-◌, ◌%◌, ◌^◌, Bool, true, false, not, ◌&&◌, ◌||◌, Option, none, some, List,
  [], ◌∷◌, ◌++◌, ltb, leb, ◌==◌, if◌then◌else◌, length, take, drop, replicate, to_bytes, of_bytes,
}

-- A package: `sizeof(sirinet_pkg_t)` is 8, and the first four bytes are `len`.
abbrev pub Pkg : Type 0
Pkg = List ℕ

-- FFILE_DEFAULT_SIZE
abbrev pub ffile_default_size : ℕ
ffile_default_size = 104857600

-- `siridb_ffile_result_t`
pub data FfileRc : Type 0 where
  no_free_space ffile_error ffile_success : FfileRc

pub record Ffile : Type 0 where
  pub free_space : ℕ
  pub next_size : ℕ
  pub size : ℕ
  pub bytes : List ℕ

-- The first `off` bytes of a file, with zeros where it ends before.
abbrev pub take_pad : ℕ → List ℕ → List ℕ
take_pad zero bits = []
take_pad (suc n) [] = 0 ∷ take_pad n []
take_pad (suc n) (b ∷ bits) = b ∷ take_pad n bits

-- `fseeko` from the start, and `fwrite`.
abbrev pub write_at : ℕ → List ℕ → List ℕ → List ℕ
write_at off new bits = take_pad off bits ++ (new ++ drop (off + length new) bits)

-- `siridb_ffile_append`
unfoldable pub ffile_append : Bool → Ffile → Pkg → FfileRc × Ffile
ffile_append io f pkg =
    let size = length pkg % 2 ^ 32 in
    let off = f.free_space - (size + 4) in
    let next = if f.next_size == 0 then size else f.next_size in
    if ltb f.free_space (size + 8)
    then (no_free_space, record f { free_space = 0 })
    else (if io
        then (
          ffile_success,
          record f {
            free_space = off;
            next_size = next;
            bytes = write_at off (take size pkg ++ to_bytes 4 size) f.bytes;
          },
        )
        else (ffile_error, record f { free_space = off; next_size = next }))

-- A file that is there already: nothing when it holds no package, and is removed.
unfoldable pub ffile_existing : Bool → List ℕ → Option Ffile
ffile_existing io bits =
    let next = if ltb (length bits) 4 then 0 else of_bytes 4 (drop (length bits - 4) bits) in
    if not io || next == 0
    then none
    else some (record { free_space = 0; next_size = next; size = length bits; bytes = bits })

-- The size of a new file, for a first package if there is one.
abbrev pub new_size : ℕ → Option Pkg → ℕ
new_size default_size none = default_size
new_size default_size (some pkg) =
    if ltb default_size (length pkg + 8) then length pkg + 8 else default_size

abbrev pub empty_file : ℕ → Ffile
empty_file n = record { free_space = n % 2 ^ 32; next_size = 0; size = n; bytes = [] }

-- The result of a first append.
abbrev pub appended : FfileRc × Ffile → Option Ffile
appended (ffile_success, f) = some f
appended (ffile_error, f) = none
appended (no_free_space, f) = none

-- A file that is created.
unfoldable pub ffile_created : Bool → ℕ → Option Pkg → Option Ffile
ffile_created io default_size none = if io then some (empty_file default_size) else none
ffile_created io default_size (some pkg) =
    if io
    then appended (ffile_append io (empty_file (new_size default_size (some pkg))) pkg)
    else none

-- `siridb_ffile_new`, with the bytes of the file where it is there; `mem` is about its memory.
unfoldable pub ffile_new : Bool → Bool → ℕ → Option Pkg → Option (List ℕ) → Option Ffile
ffile_new mem io default_size pkg none = if mem then ffile_created io default_size pkg else none
ffile_new mem io default_size pkg (some bits) = if mem then ffile_existing io bits else none

-- The `fseeko` of `siridb_ffile_pop`.
abbrev pub can_seek : Bool → Ffile → Bool
can_seek io f = io && not (ltb (length f.bytes) (f.next_size + 4))

-- `siridb_ffile_pop`: nothing where it returns NULL.
unfoldable pub ffile_pop : Bool → Ffile → Option Pkg
ffile_pop io f =
    let pkg = take f.next_size (drop (length f.bytes - (f.next_size + 4)) f.bytes) in
    if can_seek io f
    then (if ltb f.next_size 8 || not (of_bytes 4 pkg == f.next_size - 8) then none else some pkg)
    else none

-- `siridb_ffile_pop_commit`: whether it returns 0. Where `size` is too small, it stops at 0 here.
unfoldable pub ffile_pop_commit : Bool → Ffile → Bool × Ffile
ffile_pop_commit io f =
    let size = f.size - (f.next_size + 4) in
    if io && leb (f.next_size + 8) f.size && leb size (length f.bytes)
    then (
      true,
      record f {
        next_size = of_bytes 4 (drop (size - 4) f.bytes);
        size = size;
        bytes = take size f.bytes;
      },
    )
    else (false, record f { size = size })
