-- ===== src/Ctree/Items.antt =====
-- `ct_items` of src/ctree/ctree.c: a callback is called with each name and its item, until it returns a non-zero
-- value. The buffer holds the name as far as it is known; its size is passed down by value.
use mathlib.Core.List.{append_assoc, append-nil}
use siridb_server.Base.{
  ℕ, suc, ◌+◌, ◌*◌, ◌/◌, ◌≡◌, refl, ap, sym, ◌∙◌, Bool, true, false, not, ◌&&◌, ltb, Option, none,
  some, List, [], ◌∷◌, ◌++◌, length, ◌==◌, if◌then◌else◌,
}
use siridb_server.Ctree.{block_sz, Node, Nodes, node, nil, free, used, Ct, ct_get}
use siridb_server.Ctree.Names.{
  cons_all, prefixed, own, names, names_in, all_names, items_at, item_list,
}
use siridb_server.Ctree.Tree.{IsTree}
use siridb_server.Ctree.Listed.{all_names_lem}

-- 0, -1 and 1.
pub data WalkRc : Type 0 where
  walk_ok walk_err walk_stop : WalkRc

-- CT_BUF_SIZE
abbrev pub ct_buf_size : ℕ
ct_buf_size = 128

-- The size of the buffer for a name of `len` characters.
abbrev buffer_for : ℕ → ℕ → ℕ
buffer_for len sz = if ltb sz (len + 1) then (len / ct_buf_size + 1) * ct_buf_size else sz

module _ {S : Type 0} where
  abbrev pub after : WalkRc × S → (S → WalkRc × S) → WalkRc × S
  after (walk_ok, st) next = next st
  after (walk_err, st) next = (walk_err, st)
  after (walk_stop, st) next = (walk_stop, st)

  abbrev pub called : ℕ × S → WalkRc × S
  called (r, st) = (if r == 0 then walk_ok else walk_stop, st)

  pub after-cong :
      (r : WalkRc × S) (f g : S → WalkRc × S) → ((st : S) → f st ≡ g st) → after r f ≡ after r g
  after-cong (walk_ok, st) f g h = h st
  after-cong (walk_err, st) f g h = refl
  after-cong (walk_stop, st) f g h = refl

  pub after-after :
      (r : WalkRc × S) (f g : S → WalkRc × S) → after (after r f) g ≡ after r (λ st. after (f st) g)
  after-after (walk_ok, st) f g = refl
  after-after (walk_err, st) f g = refl
  after-after (walk_stop, st) f g = refl

  with_memory :
      (big : Bool) (r : WalkRc × S) (st : S) → (if big && not true then (walk_err, st) else r) ≡ r
  with_memory true r st = refl
  with_memory false r st = refl

module _ {A S : Type 0} where
  abbrev own_item : (List ℕ → A → S → ℕ × S) → List ℕ → Option A → S → WalkRc × S
  own_item cb name none st = (walk_ok, st)
  own_item cb name (some x) st = called (cb name x st)

  -- `CT_items`, where `realloc` gives memory for the sizes of which `grow` is true: `name` is what the buffer
  -- holds. The other is its loop over the array, from the place of the character `k` on.
  abbrev mutual
    pub items_node : (ℕ → Bool) → (List ℕ → A → S → ℕ × S) → List ℕ → ℕ → Node A → S → WalkRc × S
    items_node grow cb name sz (node key v s o n ns) st =
        let len = length key + length name in
        let sz' = buffer_for len sz in
        if ltb sz (len + 1) && not (grow sz')
        then (walk_err, st)
        else after (own_item cb (name ++ key) v st)
            (λ st'. items_in grow cb (name ++ key) sz' (o * block_sz) ns st')

    pub items_in : (ℕ → Bool) → (List ℕ → A → S → ℕ × S) → List ℕ → ℕ → ℕ → Nodes A → S → WalkRc × S
    items_in grow cb name sz k nil st = (walk_ok, st)
    items_in grow cb name sz k (free ns) st = items_in grow cb name sz (suc k) ns st
    items_in grow cb name sz k (used ch ns) st =
        after (items_node grow cb (name ++ k ∷ []) sz ch st)
          (λ st'. items_in grow cb name sz (suc k) ns st')

  -- `ct_items`, with memory for the first buffer or without.
  abbrev pub ct_items : Bool → (ℕ → Bool) → (List ℕ → A → S → ℕ × S) → Ct A → S → WalkRc × S
  ct_items mem grow cb t st =
      if mem
      then items_in grow cb [] ct_buf_size (t.offset * block_sz) t.nodes st
      else (walk_err, st)

  -- The same on a list of names with their items.
  abbrev pub call_names : (List ℕ → A → S → ℕ × S) → List (List ℕ × A) → S → WalkRc × S
  call_names cb [] st = (walk_ok, st)
  call_names cb ((p, x) ∷ l) st = after (called (cb p x st)) (λ st'. call_names cb l st')

  call_names-append :
      (cb : List ℕ → A → S → ℕ × S) (l m : List (List ℕ × A)) (st : S)
      → call_names cb (l ++ m) st ≡ after (call_names cb l st) (λ st'. call_names cb m st')
  call_names-append cb [] m st = refl
  call_names-append cb ((p, x) ∷ l) m st =
      after-cong (called (cb p x st)) (λ st'. call_names cb (l ++ m) st')
        (λ st'. after (call_names cb l st') (λ st''. call_names cb m st''))
        (λ st'. call_names-append cb l m st')
      ∙ sym (
          after-after (called (cb p x st)) (λ st'. call_names cb l st')
            (λ st''. call_names cb m st''))

  -- The names behind `k`, and those behind `key`, with a callback for the whole name.
  call_names-cons_all :
      (cb cb' : List ℕ → A → S → ℕ × S) (k : ℕ) (l : List (List ℕ × A)) (st : S)
      → ((p : List ℕ) (x : A) (st : S) → cb (k ∷ p) x st ≡ cb' p x st)
      → call_names cb (cons_all k l) st ≡ call_names cb' l st
  call_names-cons_all cb cb' k [] st h = refl
  call_names-cons_all cb cb' k ((p, x) ∷ l) st h =
      ap (λ r. after (called r) (λ st'. call_names cb (cons_all k l) st')) (h p x st)
      ∙ after-cong (called (cb' p x st)) (λ st'. call_names cb (cons_all k l) st')
          (λ st'. call_names cb' l st') (λ st'. call_names-cons_all cb cb' k l st' h)

  call_names-prefixed :
      (cb cb' : List ℕ → A → S → ℕ × S) (key : List ℕ) (l : List (List ℕ × A)) (st : S)
      → ((p : List ℕ) (x : A) (st : S) → cb (key ++ p) x st ≡ cb' p x st)
      → call_names cb (prefixed key l) st ≡ call_names cb' l st
  call_names-prefixed cb cb' [] [] st h = refl
  call_names-prefixed cb cb' [] ((p, x) ∷ l) st h =
      ap (λ r. after (called r) (λ st'. call_names cb l st')) (h p x st)
      ∙ after-cong (called (cb' p x st)) (λ st'. call_names cb l st') (λ st'. call_names cb' l st')
          (λ st'. call_names-prefixed cb cb' [] l st' h)
  call_names-prefixed cb cb' (r ∷ rs) l st h =
      call_names-cons_all cb (λ p x st'. cb (r ∷ p) x st') r (prefixed rs l) st (λ p x st'. refl)
      ∙ call_names-prefixed (λ p x st'. cb (r ∷ p) x st') cb' rs l st h

  own_names :
      (cb cb' : List ℕ → A → S → ℕ × S) (name : List ℕ) (v : Option A) (st : S)
      → ((p : List ℕ) (x : A) (st : S) → cb' p x st ≡ cb (name ++ p) x st)
      → own_item cb name v st ≡ call_names cb' (own v) st
  own_names cb cb' name none st h = refl
  own_names cb cb' name (some x) st h =
      ap (λ p. called (cb p x st)) (sym (append-nil name))
      ∙ ap called (sym (h [] x st))
      ∙ sym (after-ok (called (cb' [] x st)))
    where
      after-ok : (r : WalkRc × S) → after r (λ st'. (walk_ok, st')) ≡ r
      after-ok (walk_ok, st) = refl
      after-ok (walk_err, st) = refl
      after-ok (walk_stop, st) = refl

  mutual
    node_walk :
        (cb : List ℕ → A → S → ℕ × S) (name : List ℕ) (sz : ℕ) (nd : Node A) (st : S)
        → items_node (λ k. true) cb name sz nd st
          ≡ call_names (λ p x st'. cb (name ++ p) x st') (names nd) st
    node_walk cb name sz (node key v s o n ns) st =
        let sz' = buffer_for (length key + length name) sz in
        let cb' : List ℕ → A → S → ℕ × S = λ p x st'. cb ((name ++ key) ++ p) x st' in
        let whole = name ++ key in
        with_memory (ltb sz (length key + length name + 1))
          (after (own_item cb whole v st)
            (λ st'. items_in (λ k. true) cb whole sz' (o * block_sz) ns st'))
          st
        ∙ ap (λ r. after r (λ st'. items_in (λ k. true) cb whole sz' (o * block_sz) ns st'))
            (own_names cb cb' whole v st (λ p x st'. refl))
        ∙ after-cong (call_names cb' (own v) st)
            (λ st'. items_in (λ k. true) cb whole sz' (o * block_sz) ns st')
            (λ st'. call_names cb' (names_in (o * block_sz) ns) st')
            (λ st'. in_walk cb whole sz' (o * block_sz) ns st')
        ∙ sym (call_names-append cb' (own v) (names_in (o * block_sz) ns) st)
        ∙ sym (
            call_names-prefixed (λ p x st'. cb (name ++ p) x st') cb' key
              (own v ++ names_in (o * block_sz) ns) st
              (λ p x st'. ap (λ q. cb q x st') (sym (append_assoc name key p))))

    in_walk :
        (cb : List ℕ → A → S → ℕ × S) (name : List ℕ) (sz k : ℕ) (ns : Nodes A) (st : S)
        → items_in (λ k. true) cb name sz k ns st
          ≡ call_names (λ p x st'. cb (name ++ p) x st') (names_in k ns) st
    in_walk cb name sz k nil st = refl
    in_walk cb name sz k (free ns) st = in_walk cb name sz (suc k) ns st
    in_walk cb name sz k (used ch ns) st =
        let cb' : List ℕ → A → S → ℕ × S = λ p x st'. cb (name ++ p) x st' in
        ap (λ r. after r (λ st'. items_in (λ k. true) cb name sz (suc k) ns st'))
          (node_walk cb (name ++ k ∷ []) sz ch st
            ∙ sym (
                call_names-cons_all cb' (λ p x st'. cb ((name ++ k ∷ []) ++ p) x st') k (names ch)
                  st (λ p x st'. ap (λ q. cb q x st') (sym (append_assoc name (k ∷ []) p)))))
        ∙ after-cong (call_names cb' (cons_all k (names ch)) st)
            (λ st'. items_in (λ k. true) cb name sz (suc k) ns st')
            (λ st'. call_names cb' (names_in (suc k) ns) st')
            (λ st'. in_walk cb name sz (suc k) ns st')
        ∙ sym (call_names-append cb' (cons_all k (names ch)) (names_in (suc k) ns) st)

  -- With memory, `ct_items` of a tree calls the callback on the names of a list, in order, until it returns a
  -- non-zero value; in the list stands each name that `ct_get` finds once, with its item, and no other name.
  pub ct_items_lem :
      (cb : List ℕ → A → S → ℕ × S) (t : Ct A) (st : S)
      → IsTree t
      → (ct_items true (λ k. true) cb t st ≡ call_names cb (all_names t) st)
        × ((q : List ℕ) → items_at q (all_names t) ≡ item_list (ct_get t q))
  ct_items_lem cb t st valid =
      (in_walk cb [] ct_buf_size (t.offset * block_sz) t.nodes st, λ q. all_names_lem t q valid)
