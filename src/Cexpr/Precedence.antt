-- ===== src/Cexpr/Precedence.antt =====
-- A condition without parentheses: `and` binds tighter than `or`.
use siridb_server.Base.{
  ℕ, suc, ◌<◌, ◌≡◌, refl, ap, ◌∙◌, Bool, true, false, ◌||◌, ◌&&◌, some, List, [], ◌∷◌, ◌++◌, arith,
}
use siridb_server.Cexpr.{
  Via, via_null, via_cexpr, via_cond, Cexpr, Builder, Token, condition, and_token, or_token,
  set_node, put, alloc, is_null, push_and_at, push_or_at, wrap_or, with_link, linked, walk_token,
  walk_tokens, bind_built,
}
use siridb_server.Cexpr.Heap.{Expr, leaf, both, holds, depth, Rep-agree}
use siridb_server.Cexpr.State.{
  behind, plug, plug-append, Way-snoc, State, State-Rep, set_node_self, set_node_ne,
}

and_assoc : (d k a b : Bool) → (d || (k && (a && b))) ≡ (d || ((k && a) && b))
and_assoc d true a b = refl
and_assoc d false a b = refl

module _ {C : Type 0} where
  abbrev pub half : Bool → Via C → Cexpr C
  half is_or a = record { is_or = is_or; via_a = a; via_b = via_null }

  abbrev pub full : Bool → Via C → Via C → Cexpr C
  full is_or a b = record { is_or = is_or; via_a = a; via_b = b }

  -- After `and`, and after the condition behind it.
  abbrev pub and_linked : Builder C → ℕ → Bool → Via C → Builder C
  and_linked t p is_or a = put t p (full is_or a (via_cexpr t.count))

  abbrev pub and_half : Builder C → ℕ → Bool → Via C → C → Builder C
  and_half t p is_or a x = alloc (and_linked t p is_or a) (half false (via_cond x))

  abbrev pub and_done : Builder C → ℕ → Bool → Via C → C → C → Builder C
  and_done t p is_or a x y =
      put (and_half t p is_or a x) t.count (full false (via_cond x) (via_cond y))

  -- After `or`, and after the condition behind it.
  abbrev pub or_half : Builder C → ℕ → Builder C
  or_half t root = alloc (record t { list = t.count ∷ [] }) (half true (via_cexpr root))

  abbrev pub or_done : Builder C → ℕ → C → Builder C
  or_done t root y = put (or_half t root) t.count (full true (via_cexpr root) (via_cond y))

  -- A condition goes to a node that has no `via_b`.
  pub walk-condition :
      (t : Builder C) (q : ℕ) (is_or : Bool) (a : Via C) (y : C)
      → is_null a ≡ false
      → t.nodes q ≡ record { is_or = is_or; via_a = a; via_b = via_null }
      → walk_token true (condition y) t q
        ≡ some (put t q (record { is_or = is_or; via_a = a; via_b = via_cond y }), q)
  unfolding walk_token
  walk-condition t q is_or a y filled e =
      ap (λ v. linked t q (with_link v (via_cond y))) e ∙ rw filled refl

  pub walk-and :
      (t : Builder C) (p : ℕ) (is_or : Bool) (a : Via C) (x y : C) (more : List (Token C))
      → t.nodes p ≡ record { is_or = is_or; via_a = a; via_b = via_cond x }
      → walk_tokens true (and_token ∷ condition y ∷ more) t p
        ≡ walk_tokens true more (and_done t p is_or a x y) t.count
  unfolding walk_tokens walk_token push_and_at
  walk-and t p is_or a x y more e =
      ap (λ v. bind_built (push_and_at true t p v) (walk_tokens true (condition y ∷ more))) e
      ∙ ap (λ b. bind_built b (walk_tokens true more))
          (walk-condition (and_half t p is_or a x) t.count false (via_cond x) y refl
            (set_node_self t.count (half false (via_cond x)) (and_linked t p is_or a).nodes))

  pub walk-or :
      (t : Builder C) (p root : ℕ) (is_or : Bool) (a : Via C) (x y : C) (more : List (Token C))
      → t.nodes p ≡ record { is_or = is_or; via_a = a; via_b = via_cond x }
      → t.list ≡ root ∷ []
      → walk_tokens true (or_token ∷ condition y ∷ more) t p
        ≡ walk_tokens true more (or_done t root y) t.count
  unfolding walk_tokens walk_token push_or_at wrap_or
  walk-or t p root is_or a x y more e listed =
      ap (λ v. bind_built (push_or_at true t p v) (walk_tokens true (condition y ∷ more))) e
      ∙ ap (λ l. bind_built (wrap_or t l) (walk_tokens true (condition y ∷ more))) listed
      ∙ ap (λ b. bind_built b (walk_tokens true more))
          (walk-condition (or_half t root) t.count true (via_cexpr root) y refl
            (set_node_self t.count (half true (via_cexpr root)) t.nodes))

  pub State-and :
      (cb : C → Bool) (t : Builder C) (p : ℕ) (x y : C) (d k : Bool) (s : State cb t p x d k)
      → State cb (and_done t p s.is_or s.a x y) t.count y d (k && cb x)
  State-and cb t p x y d k s =
      let u = and_done t p s.is_or s.a x y in
      let lt : p < t.count = omega (arith, s.newest) in
      let linked = full s.is_or s.a (via_cexpr t.count) in
      let at_p : ℕ → Cexpr C = set_node p linked t.nodes in
      let at_count : ℕ → Cexpr C = set_node t.count (half false (via_cond x)) at_p in
      let last = full false (via_cond x) (via_cond y) in
      let before : (j : ℕ) → j < t.count → u.nodes j ≡ at_p j = λ j h.
        set_node_ne t.count j last at_count (λ e. absurd (omega (arith, e, h)))
        ∙ set_node_ne t.count j (half false (via_cond x)) at_p
            (λ e. absurd (omega (arith, e, h))) in
      let same : (j : ℕ) → j < p → u.nodes j ≡ t.nodes j = λ j h.
        before j (omega (arith, h, lt))
        ∙ set_node_ne p j linked t.nodes (λ e. absurd (omega (arith, e, h))) in
      let here : u.nodes p ≡ linked = before p lt ∙ set_node_self p linked t.nodes in
      let deeper : (z : Expr C)
          → plug (s.frames ++ behind s.is_or s.first ∷ []) (both false (leaf x) z)
            ≡ plug s.frames (both s.is_or s.first (both false (leaf x) z)) =
        λ z. plug-append s.frames (behind s.is_or s.first ∷ []) (both false (leaf x) z) in
      record {
        frames = s.frames ++ behind s.is_or s.first ∷ [];
        is_or = false;
        first = leaf x;
        root = s.root;
        a = via_cond x;
        newest = refl;
        listed = s.listed;
        way =
            Way-snoc t.nodes u.nodes p t.count (via_cexpr s.root) s.a s.frames s.is_or s.first same
              lt here s.rep s.way;
        here = set_node_self t.count last at_count;
        rep = refl;
        value = λ z.
            ap (holds cb) (deeper z)
            ∙ s.value (both false (leaf x) z)
            ∙ and_assoc d k (cb x) (holds cb z);
        small = λ z. omega (arith, ap depth (deeper z), s.small (both false (leaf x) z));
      }

  pub State-or :
      (cb : C → Bool) (t : Builder C) (p : ℕ) (x y : C) (d k : Bool) (s : State cb t p x d k)
      → State cb (or_done t s.root y) t.count y (d || (k && cb x)) true
  State-or cb t p x y d k s =
      let u = or_done t s.root y in
      let at_count : ℕ → Cexpr C = set_node t.count (half true (via_cexpr s.root)) t.nodes in
      let last = full true (via_cexpr s.root) (via_cond y) in
      let same : (j : ℕ) → j < suc p → u.nodes j ≡ t.nodes j = λ j h.
        set_node_ne t.count j last at_count (λ e. absurd (omega (arith, e, h, s.newest)))
        ∙ set_node_ne t.count j (half true (via_cexpr s.root)) t.nodes
            (λ e. absurd (omega (arith, e, h, s.newest))) in
      let whole = plug s.frames (both s.is_or s.first (leaf x)) in
      record {
        frames = [];
        is_or = true;
        first = whole;
        root = t.count;
        a = via_cexpr s.root;
        newest = refl;
        listed = refl;
        way = refl;
        here = set_node_self t.count last at_count;
        rep =
            Rep-agree t.nodes u.nodes (suc p) t.count (via_cexpr s.root) whole
              (omega (arith, s.newest)) same (State-Rep cb t p x d k s);
        value = λ z. ap (λ b. b || holds cb z) (s.value (leaf x));
        small = λ z. omega (arith, s.small (leaf x));
      }
