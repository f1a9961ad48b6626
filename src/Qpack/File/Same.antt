-- ===== src/Qpack/File/Same.antt =====
-- The file packer writes the bytes that the packer in memory writes.
use mathlib.Core.List.{append_assoc, append-nil}
use siridb_server.Base.{
  ℕ, ◌+◌, ◌-◌, ◌^◌, ◌%◌, ◌<◌, ◌≡◌, refl, ap, sym, subst, ◌∙◌, Bool, true, false, ◌||◌, List, [],
  ◌∷◌, ◌++◌, ◌==◌, ltb, leb, if◌then◌else◌, length, to_bytes, arith,
}
use siridb_server.Qpack.Pack.{fits, raw_head, int64_bytes, double_bytes}
use siridb_server.Qpack.File.{
  Stream, and_then, put_sized, put_head, qp_fadd_raw, qp_fadd_int64, qp_fadd_double,
}

-- What the C library promises: a write that succeeds puts its bytes at the end; `fputc` converts to
-- an unsigned char.
pub record Appends (s : Stream) (content : s.File → List ℕ) : Type 0 where
  pub put :
      (c : ℕ) (f : s.File)
      → (s.fputc c f).0 ≡ true
      → content (s.fputc c f).1 ≡ content f ++ (c % 256) ∷ []
  pub write :
      (bs : List ℕ) (f : s.File)
      → (s.fwrite bs f).0 ≡ true
      → content (s.fwrite bs f).1 ≡ content f ++ bs

module _ (s : Stream) (content : s.File → List ℕ) (a : Appends s content) where
  -- With success, the bytes `bs` are behind the content.
  abbrev Adds : s.File → List ℕ → Bool × s.File → Type 0
  Adds f bs r = r.0 ≡ true → content r.1 ≡ content f ++ bs

  and_then-Adds :
      (f : s.File) (xs ys : List ℕ) (r : Bool × s.File) (k : s.File → Bool × s.File)
      → Adds f xs r
      → ((g : s.File) → Adds g ys (k g))
      → Adds f (xs ++ ys) (and_then r k)
  and_then-Adds f xs ys (true, g) k first rest =
      λ e. rest g e ∙ ap (λ l. l ++ ys) (first refl) ∙ append_assoc (content f) xs ys
  and_then-Adds f xs ys (false, g) k first rest = λ e. ground arith

  put-Adds : (c : ℕ) (f : s.File) → c < 256 → Adds f (c ∷ []) (s.fputc c f)
  put-Adds c f h = λ e. a.put c f e ∙ ap (λ b. content f ++ b ∷ []) (omega arith)

  put_sized-Adds :
      (tp k x : ℕ) (f : s.File) → tp < 256 → Adds f (tp ∷ to_bytes k x) (put_sized s tp k x f)
  put_sized-Adds tp k x f h =
      and_then-Adds f (tp ∷ []) (to_bytes k x) _ _ (put-Adds tp f h) (a.write (to_bytes k x))

  put_byte-Adds :
      (tp x : ℕ) (f : s.File)
      → tp < 256
      → Adds f (tp ∷ to_bytes 1 x) (and_then (s.fputc tp f) (s.fputc x))
  put_byte-Adds tp x f h = and_then-Adds f (tp ∷ []) (to_bytes 1 x) _ _ (put-Adds tp f h) (a.put x)

  -- Both sides branch on the same test.
  if-Adds :
      (b : Bool) (f : s.File) (xs ys : List ℕ) (r q : Bool × s.File)
      → (b ≡ true → Adds f xs r)
      → (b ≡ false → Adds f ys q)
      → Adds f (if b then xs else ys) (if b then r else q)
  if-Adds true f xs ys r q yes_case no_case = yes_case refl
  if-Adds false f xs ys r q yes_case no_case = no_case refl

  put_head-Adds : (len : ℕ) (f : s.File) → Adds f (raw_head len) (put_head s len f)
  put_head-Adds len f =
      if-Adds (ltb len 100) f _ _ _ _ (λ e. put-Adds (128 + len) f (ground arith))
        (λ e.
          if-Adds (leb len 0xff) f _ _ _ _ (λ e. put_byte-Adds 228 len f (omega arith))
            (λ e.
              if-Adds (leb len 0xffff) f _ _ _ _ (λ e. put_sized-Adds 229 2 len f (omega arith))
                (λ e.
                  if-Adds (leb len 0xffffffff) f _ _ _ _
                    (λ e. put_sized-Adds 230 4 len f (omega arith))
                    (λ e. put_sized-Adds 231 8 len f (omega arith)))))

  put_string-Adds :
      (raw : List ℕ) (g : s.File)
      → Adds g raw (if length raw == 0 then (true, g) else s.fwrite raw g)
  put_string-Adds [] g = λ e. sym (append-nil (content g))
  put_string-Adds (x ∷ raw) g =
      let not_empty : (length (x ∷ raw) == 0) ≡ false = ground arith in
      subst (λ b. Adds g (x ∷ raw) (if b then (true, g) else s.fwrite (x ∷ raw) g)) (sym not_empty)
        (a.write (x ∷ raw) g)

  put_int-Adds : (x : ℕ) (f : s.File) → x < 2 ^ 64 → Adds f (int64_bytes x) (qp_fadd_int64 s x f)
  unfolding qp_fadd_int64
  put_int-Adds x f h =
      if-Adds (fits 8 x) f _ _ _ _
        (λ e.
          if-Adds (ltb x 64) f _ _ _ _ (λ e. put-Adds x f (ground arith))
            (λ e.
              if-Adds (leb (2 ^ 64 - 60) x) f _ _ _ _
                (λ e. put-Adds (2 ^ 64 + 63 - x) f (ground arith))
                (λ e. put_byte-Adds 232 x f (omega arith))))
        (λ e.
          if-Adds (fits 16 x) f _ _ _ _ (λ e. put_sized-Adds 233 2 x f (omega arith))
            (λ e.
              if-Adds (fits 32 x) f _ _ _ _ (λ e. put_sized-Adds 234 4 x f (omega arith))
                (λ e. put_sized-Adds 235 8 x f (omega arith))))

  put_double-Adds : (x : ℕ) (f : s.File) → Adds f (double_bytes x) (qp_fadd_double s x f)
  unfolding qp_fadd_double
  put_double-Adds x f =
      if-Adds (x == 0 || x == 2 ^ 63) f _ _ _ _ (λ e. put-Adds 126 f (omega arith))
        (λ e.
          if-Adds (x == 0x3ff0000000000000) f _ _ _ _ (λ e. put-Adds 127 f (omega arith))
            (λ e.
              if-Adds (x == 0xbff0000000000000) f _ _ _ _ (λ e. put-Adds 125 f (omega arith))
                (λ e. put_sized-Adds 236 8 x f (omega arith))))

  -- On a file where a write that succeeds appends its bytes: a string, a 64-bit integer or a double
  -- that the file packer adds with success stands in the file as the bytes that the packer in memory
  -- adds for it.
  pub qp_fadd_lem :
      (raw : List ℕ) (x : ℕ) (f : s.File)
      → x < 2 ^ 64
      → Adds f (raw_head (length raw) ++ raw) (qp_fadd_raw s raw f)
        × Adds f (int64_bytes x) (qp_fadd_int64 s x f)
        × Adds f (double_bytes x) (qp_fadd_double s x f)
  unfolding qp_fadd_raw
  qp_fadd_lem raw x f h = (
    and_then-Adds f (raw_head (length raw)) raw _ _ (put_head-Adds (length raw) f)
        (put_string-Adds raw),
    put_int-Adds x f h,
    put_double-Adds x f,
  )
