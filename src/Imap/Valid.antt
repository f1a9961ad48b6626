-- ===== src/Imap/Valid.antt =====
-- The invariant of a map, and a map after one of its roots was replaced.
use siridb_server.Base.{
  ℕ, suc, ◌+◌, ◌-◌, ◌/◌, ◌%◌, ◌≡◌, ◌∙◌, ◌==◌, if◌then◌else◌, arith, ℕ_discrete,
}
use siridb_server.Imap.{Imap, levels}
use siridb_server.Imap.Tree.{Node, Nodes, value, index, put, node_get}
use siridb_server.Imap.Tree.Arrays.{
  AllValid, count, total, items, index-IsValid, put-AllValid, total-put, count-put, index-put_self,
  index-put_ne, items-index-le, zeros-AllValid, count-zeros, total-zeros,
}
use siridb_server.Imap.Tree.Arrays
use siridb_server.Imap.Tree.Find.{found, node_get-found}

module _ {A : Type 0} where
  -- All 32 roots are there, and the counters of the map and of every node below are right.
  pub record IsValid (m : Imap A) : Type 0 where
    pub roots_there : count m.roots ≡ 32
    pub nodes_valid : AllValid m.roots
    pub len_counts : m.len ≡ total m.roots

  pub index-put_root :
      (roots : Nodes A) (n : Node A) (i j : ℕ)
      → count roots ≡ 32
      → index (put roots (i % 32) n) (j % 32)
        ≡ (if i % 32 == j % 32 then n else index roots (j % 32))
  index-put_root roots n i j h = elim (ℕ_discrete (i % 32) (j % 32)) [
    | yes e ↦ ground (arith, index-put_self roots (i % 32) n)
    | no ne ↦ ground (arith, index-put_ne roots (i % 32) (j % 32) n ne)
  ]

  -- The map after its root `i % 32` was replaced, where the items below it went from `t` to `t'`.
  pub root-IsValid :
      (m : Imap A) (n : Node A) (i len : ℕ)
      → IsValid m
      → Arrays.IsValid n
      → len + items (index m.roots (i % 32)) ≡ m.len + items n
      → (count (put m.roots (i % 32) n) ≡ 32)
        × AllValid (put m.roots (i % 32) n)
        × (len ≡ total (put m.roots (i % 32) n))
  root-IsValid m n i len v vn e = (
    count-put m.roots (i % 32) n ∙ v.roots_there,
    put-AllValid m.roots (i % 32) n v.nodes_valid vn,
    omega (arith, total-put m.roots (i % 32) n, v.roots_there, v.len_counts, e),
  )

  pub imap_get-node :
      (n : Node A) (i : ℕ)
      → node_get (suc levels) n i ≡ (if i / 32 == 0 then value n else found levels n (i / 32 - 1))
  imap_get-node n i = node_get-found levels n i
