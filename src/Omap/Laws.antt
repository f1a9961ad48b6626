-- ===== src/Omap/Laws.antt =====
-- The list keeps its order, and behaves as a finite map.
use siridb_server.Base.{
  ℕ, ◌+◌, ◌≤◌, ◌<◌, ◌≡◌, refl, Bool, none, some, List, [], ◌∷◌, ◌==◌, if◌then◌else◌, arith, length,
}
use siridb_server.Omap.{
  success, err_exist, err_alloc, Omap, add_from, set_from, get_from, rm_from, omap_add, omap_set,
  omap_get, omap_rm,
}

module _ {ℓ} {A : Type ℓ} where
  -- The ids rise strictly along the list, from `b` on.
  abbrev pub Rising : ℕ → List (ℕ × A) → Type 0
  Rising b [] = Unit
  Rising b ((j, y) ∷ rest) = (b ≤ j) × Rising (j + 1) rest

  -- The order of the list, and the counter of the head node.
  pub record IsValid (m : Omap A) : Type 0 where
    pub rising : Rising 0 m.entries
    pub counts : m.n ≡ length m.entries

  get_from_below : (b id : ℕ) (l : List (ℕ × A)) → Rising b l → id < b → get_from id l ≡ none
  unfolding get_from
  get_from_below b id [] r h = refl
  get_from_below b id ((j, y) ∷ rest) r h = ground arith

  add_from-Rising :
      (mem : Bool) (b id : ℕ) (x : A) (l : List (ℕ × A))
      → Rising b l
      → b ≤ id
      → Rising b (add_from mem id x l).1
  unfolding add_from
  add_from-Rising mem b id x [] r h = ground arith
  add_from-Rising mem b id x ((j, y) ∷ rest) r h =
      ground (arith, add_from-Rising mem (j + 1) id x rest r.1)

  add_from-length :
      (mem : Bool) (id : ℕ) (x : A) (l : List (ℕ × A))
      → let (rc, l') = add_from mem id x l in
        length l' ≡ (elim rc [ success ↦ length l + 1 | _ ↦ length l ])
  unfolding add_from
  add_from-length mem id x [] = ground arith
  add_from-length mem id x ((j, y) ∷ rest) = ground (arith, add_from-length mem id x rest)

  get_from-add_from :
      (mem : Bool) (b id i : ℕ) (x : A) (l : List (ℕ × A))
      → Rising b l
      → let (rc, l') = add_from mem id x l in
        get_from i l'
        ≡ (elim rc [ success ↦ (if id == i then some x else get_from i l) | _ ↦ get_from i l ])
  unfolding add_from get_from
  get_from-add_from mem b id i x [] r = ground arith
  get_from-add_from mem b id i x ((j, y) ∷ rest) r =
      ground
        (arith, get_from-add_from mem (j + 1) id i x rest r.1, get_from_below (j + 1) i rest r.1)

  add_from-code :
      (mem : Bool) (b id : ℕ) (x : A) (l : List (ℕ × A))
      → Rising b l
      → (add_from mem id x l).0
        ≡ (elim (get_from id l) [ some _ ↦ err_exist | none ↦ if mem then success else err_alloc ])
  unfolding add_from get_from
  add_from-code mem b id x [] r = ground arith
  add_from-code mem b id x ((j, y) ∷ rest) r =
      ground (arith, add_from-code mem (j + 1) id x rest r.1, get_from_below (j + 1) id rest r.1)

  -- `omap_add` on an ordered list: the code says whether the id was there, and else whether memory
  -- was; only on success the map changes, and then at that id alone; order and count are kept.
  pub omap_add_lem :
      (mem : Bool) (m : Omap A) (id : ℕ) (x : A)
      → IsValid m
      → let (rc, m') = omap_add mem m id x in
        (rc ≡ (elim (omap_get m id) [
          | some _ ↦ err_exist
          | none ↦ if mem then success else err_alloc
        ]))
        × ((i : ℕ)
            → omap_get m' i ≡ (elim rc [
              | success ↦ (if id == i then some x else omap_get m i)
              | _ ↦ omap_get m i
            ]))
        × IsValid m'
  unfolding omap_add omap_get
  omap_add_lem mem m id x v = (
    add_from-code mem 0 id x m.entries v.rising,
    (λ i. get_from-add_from mem 0 id i x m.entries v.rising),
    record {
      rising = add_from-Rising mem 0 id x m.entries v.rising (omega arith);
      counts = ground (arith, add_from-length mem id x m.entries, v.counts);
    },
  )

  set_from-Rising :
      (mem : Bool) (b id : ℕ) (x : A) (l : List (ℕ × A))
      → Rising b l
      → b ≤ id
      → Rising b (set_from mem id x l).2
  unfolding set_from
  set_from-Rising mem b id x [] r h = ground arith
  set_from-Rising mem b id x ((j, y) ∷ rest) r h =
      ground (arith, set_from-Rising mem (j + 1) id x rest r.1)

  set_from-length :
      (mem : Bool) (id : ℕ) (x : A) (l : List (ℕ × A))
      → let (r, added, l') = set_from mem id x l in
        length l' ≡ (if added then length l + 1 else length l)
  unfolding set_from
  set_from-length mem id x [] = ground arith
  set_from-length mem id x ((j, y) ∷ rest) = ground (arith, set_from-length mem id x rest)

  set_from-result :
      (mem : Bool) (b id : ℕ) (x : A) (l : List (ℕ × A))
      → Rising b l
      → (set_from mem id x l).0
        ≡ (elim (get_from id l) [ some y ↦ some y | none ↦ if mem then some x else none ])
  unfolding set_from get_from
  set_from-result mem b id x [] r = ground arith
  set_from-result mem b id x ((j, y) ∷ rest) r =
      ground (arith, set_from-result mem (j + 1) id x rest r.1, get_from_below (j + 1) id rest r.1)

  get_from-set_from :
      (mem : Bool) (b id i : ℕ) (x : A) (l : List (ℕ × A))
      → Rising b l
      → let (r, added, l') = set_from mem id x l in
        get_from i l'
        ≡ (elim r [ some _ ↦ if id == i then some x else get_from i l | none ↦ get_from i l ])
  unfolding set_from get_from
  get_from-set_from mem b id i x [] r = ground arith
  get_from-set_from mem b id i x ((j, y) ∷ rest) r =
      ground
        (arith, get_from-set_from mem (j + 1) id i x rest r.1, get_from_below (j + 1) i rest r.1)

  -- `omap_set` on an ordered list: it returns the previous value where there was one, else the new
  -- value, or NULL when memory ran out; but for the last case the id maps to the new value and
  -- every other id is as before; order and count are kept.
  pub omap_set_lem :
      (mem : Bool) (m : Omap A) (id : ℕ) (x : A)
      → IsValid m
      → let (r, m') = omap_set mem m id x in
        (r ≡ (elim (omap_get m id) [ some y ↦ some y | none ↦ if mem then some x else none ]))
        × ((i : ℕ)
            → omap_get m' i ≡ (elim r [
              | some _ ↦ if id == i then some x else omap_get m i
              | none ↦ omap_get m i
            ]))
        × IsValid m'
  unfolding omap_set omap_get
  omap_set_lem mem m id x v = (
    set_from-result mem 0 id x m.entries v.rising,
    (λ i. get_from-set_from mem 0 id i x m.entries v.rising),
    record {
      rising = set_from-Rising mem 0 id x m.entries v.rising (omega arith);
      counts = ground (arith, set_from-length mem id x m.entries, v.counts);
    },
  )

  rm_from-Rising : (b id : ℕ) (l : List (ℕ × A)) → Rising b l → Rising b (rm_from id l).1
  unfolding rm_from
  rm_from-Rising b id [] r = tt
  rm_from-Rising b id ((j, y) ∷ []) r = ground arith
  rm_from-Rising b id ((j, y) ∷ (k, z) ∷ rest) r =
      ground (arith, rm_from-Rising (j + 1) id ((k, z) ∷ rest) r.1)

  rm_from-length :
      (id : ℕ) (l : List (ℕ × A))
      → let (r, l') = rm_from id l in
        length l ≡ (elim r [ some _ ↦ length l' + 1 | none ↦ length l' ])
  unfolding rm_from
  rm_from-length id [] = refl
  rm_from-length id ((j, y) ∷ rest) = ground (arith, rm_from-length id rest)

  get_from-rm_from :
      (b id i : ℕ) (l : List (ℕ × A))
      → Rising b l
      → ((rm_from id l).0 ≡ get_from id l)
        × (get_from i (rm_from id l).1 ≡ (if id == i then none else get_from i l))
  unfolding rm_from get_from
  get_from-rm_from b id i [] r = ground arith
  get_from-rm_from b id i ((j, y) ∷ rest) r = ground (
    arith,
    get_from-rm_from (j + 1) id i rest r.1,
    get_from_below (j + 1) i rest r.1,
    get_from_below (j + 1) id rest r.1,
  )

  -- `omap_rm` on an ordered list returns what the id maps to, or NULL; afterwards that id maps to
  -- nothing and every other id is as before; order and count are kept.
  pub omap_rm_lem :
      (m : Omap A) (id : ℕ)
      → IsValid m
      → let (r, m') = omap_rm m id in
        (r ≡ omap_get m id)
        × ((i : ℕ) → omap_get m' i ≡ (if id == i then none else omap_get m i))
        × IsValid m'
  unfolding omap_rm omap_get
  omap_rm_lem m id v = (
    (get_from-rm_from 0 id 0 m.entries v.rising).0,
    (λ i. (get_from-rm_from 0 id i m.entries v.rising).1),
    record {
      rising = rm_from-Rising 0 id m.entries v.rising;
      counts = ground (arith, rm_from-length id m.entries, v.counts);
    },
  )
