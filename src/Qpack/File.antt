-- ===== src/Qpack/File.antt =====
-- src/qpack/qpack.c: the packer that writes to a file. `fputc` and `fwrite` of the C library are
-- parameters: whether they wrote, and the file afterwards. A result `false` stands for EOF.
pub mod Same
use siridb_server.Base.{
  ℕ, ◌+◌, ◌-◌, ◌^◌, Bool, true, false, ◌||◌, List, [], ◌∷◌, ◌==◌, ltb, leb, if◌then◌else◌, length,
  to_bytes,
}
use siridb_server.Qpack.Pack.{fits}

pub record Stream : Type 1 where
  pub File : Type 0
  pub fputc : ℕ → File → Bool × File
  pub fwrite : List ℕ → File → Bool × File

-- `&&` between two writes.
abbrev pub and_then : {File : Type 0} → Bool × File → (File → Bool × File) → Bool × File
and_then r k = if r.0 then k r.1 else r

module _ (s : Stream) where
  -- A type code, and an unsigned integer of `k` bytes.
  abbrev pub put_sized : ℕ → ℕ → ℕ → s.File → Bool × s.File
  put_sized tp k x f = and_then (s.fputc tp f) (s.fwrite (to_bytes k x))

  -- `qp_fadd_type`
  unfoldable pub qp_fadd_type : ℕ → s.File → Bool × s.File
  qp_fadd_type tp f = s.fputc tp f

  -- What `qp_fadd_raw` writes before the string.
  abbrev pub put_head : ℕ → s.File → Bool × s.File
  put_head len f =
      if ltb len 100
      then s.fputc (128 + len) f
      else (if leb len 0xff
          then and_then (s.fputc 228 f) (s.fputc len)
          else (if leb len 0xffff
              then put_sized 229 2 len f
              else (if leb len 0xffffffff then put_sized 230 4 len f else put_sized 231 8 len f)))

  -- `qp_fadd_raw`
  unfoldable pub qp_fadd_raw : List ℕ → s.File → Bool × s.File
  qp_fadd_raw raw f =
      and_then (put_head (length raw) f)
        (λ g. if length raw == 0 then (true, g) else s.fwrite raw g)

  -- `qp_fadd_int64`
  unfoldable pub qp_fadd_int64 : ℕ → s.File → Bool × s.File
  qp_fadd_int64 x f =
      if fits 8 x
      then (if ltb x 64
          then s.fputc x f
          else (if leb (2 ^ 64 - 60) x
              then s.fputc (2 ^ 64 + 63 - x) f
              else and_then (s.fputc 232 f) (s.fputc x)))
      else (if fits 16 x
          then put_sized 233 2 x f
          else (if fits 32 x then put_sized 234 4 x f else put_sized 235 8 x f))

  -- `qp_fadd_double`
  unfoldable pub qp_fadd_double : ℕ → s.File → Bool × s.File
  qp_fadd_double x f =
      if x == 0 || x == 2 ^ 63
      then s.fputc 126 f
      else (if x == 0x3ff0000000000000
          then s.fputc 127 f
          else (if x == 0xbff0000000000000 then s.fputc 125 f else put_sized 236 8 x f))
