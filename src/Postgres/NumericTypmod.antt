-- ===== src/Postgres/NumericTypmod.antt =====
-- The typmod of a `numeric(p,s)` column, for `Decoding::numeric` of pg_to_arrow.rs.
use Prim.Native.Nat.{bit_xor}
use transferred.Prelude.{
  ℕ, zero, suc, ◌+◌, ◌-◌, ◌*◌, ◌%◌, ◌^◌, ◌≤◌, ◌<◌, ◌≡◌, refl, ◌∙◌, ap, Bool, true, false, ◌&&◌, ok,
  err, arith, leb, ◌==◌, ==_iff, if◌then◌else◌,
}
use transferred.Prelude.Int.{ℤ, pos, negsuc, sub_ℕ}
use transferred.Core.Error.{Outcome}
use transferred.Postgres.PgToArrow.{
  Decoding, numeric, packed, packed_precision, packed_scale, numeric_of, unsupported_numeric,
}

-- The 11 bits of a scale, as PG packs it.
abbrev pub scale_bits : ℤ → ℕ
scale_bits (pos n) = n % 2048
scale_bits (negsuc n) = 2047 - n % 2048

-- PG's `make_numeric_typmod`: `((precision << 16) | (scale & 0x7ff)) + VARHDRSZ`.
abbrev pub numeric_typmod : ℕ → ℤ → ℤ
numeric_typmod precision scale = pos (precision * 65536 + scale_bits scale + 4)

-- The scales that PG takes.
abbrev pub IsScale : ℤ → Type 0
IsScale (pos n) = n ≤ 1000
IsScale (negsuc n) = n < 1000

-- What `Decimal128` can hold.
abbrev pub fits_decimal128 : ℕ → ℤ → Bool
fits_decimal128 precision (pos scale) = leb precision 38 && leb scale precision
fits_decimal128 precision (negsuc n) = false

abbrev pub expected_numeric : ℕ → ℤ → Outcome Decoding
expected_numeric precision (pos scale) =
    if fits_decimal128 precision (pos scale)
    then ok (numeric precision scale)
    else err (unsupported_numeric precision (pos scale))
expected_numeric precision (negsuc n) = err (unsupported_numeric precision (negsuc n))

-- A finite table, checked from the top down.
holds_below : (ℕ → Bool) → ℕ → Bool
holds_below test zero = true
holds_below test (suc top) = let rest = holds_below test top in test top && rest

holds_below_lem :
    (test : ℕ → Bool) (top : ℕ) → holds_below test top ≡ true → (k : ℕ) → k < top → test k ≡ true
unfolding holds_below
holds_below_lem test (suc top) table k below = ground (arith, holds_below_lem test top _ k)
holds_below_lem test zero table k below = absurd (omega arith)

flip_table :
    holds_below (λ pattern_bits. bit_xor pattern_bits 0x400 == (pattern_bits + 1024) % 2048) 2048
    ≡ true
unfolding holds_below
flip_table = refl

-- The exclusive or with the sign bit turns the pattern by half its range.
flip_sign : (x : ℕ) → x < 2048 → bit_xor x 0x400 ≡ (x + 1024) % 2048
flip_sign x h = (==_iff _ _).0 (holds_below_lem _ 2048 flip_table x h)

packed_typmod : (p b : ℕ) → p ≤ 1000 → b < 2048 → packed (pos (p * 65536 + b + 4)) ≡ p * 65536 + b
unfolding packed
packed_typmod p b hp hb = omega arith

precision_of : (p b : ℕ) → p ≤ 1000 → b < 2048 → packed_precision (pos (p * 65536 + b + 4)) ≡ p
unfolding packed_precision
precision_of p b hp hb = rw (packed_typmod p b hp hb) (omega arith)

scale_of :
    (p b : ℕ)
    → p ≤ 1000
    → b < 2048
    → packed_scale (pos (p * 65536 + b + 4)) ≡ sub_ℕ ((b + 1024) % 2048) 1024
unfolding packed_scale
scale_of p b hp hb =
    rw (packed_typmod p b hp hb)
      (ap (λ x. sub_ℕ x 1024) (ap (λ x. bit_xor x 0x400) (low b p hb) ∙ flip_sign b hb))
  where
    low : (b p : ℕ) → b < 2048 → (p * 65536 + b) % 2 ^ 11 ≡ b
    low b p h = omega arith

read_scale : (s : ℤ) → IsScale s → sub_ℕ ((scale_bits s + 1024) % 2048) 1024 ≡ s
read_scale (pos n) h = ground arith
read_scale (negsuc n) h = ground arith

scale_bits-lt : (s : ℤ) → IsScale s → scale_bits s < 2048
scale_bits-lt (pos n) h = omega arith
scale_bits-lt (negsuc n) h = omega arith

-- Every numeric(p,s) that Postgres can declare becomes Decimal128(p,s) where p is at most 38 and s
-- lies from 0 to p, and is refused, by its own precision and scale, everywhere else.
pub numeric_of-numeric_typmod :
    (p : ℕ) (s : ℤ) → p ≤ 1000 → IsScale s → numeric_of (numeric_typmod p s) ≡ expected_numeric p s
unfolding numeric_of
numeric_of-numeric_typmod p (pos n) hp hs =
    rw
      (
        precision_of p (scale_bits (pos n)) hp (scale_bits-lt (pos n) hs),
        scale_of p (scale_bits (pos n)) hp (scale_bits-lt (pos n) hs),
        read_scale (pos n) hs,
      )
      (ground arith)
numeric_of-numeric_typmod p (negsuc n) hp hs =
    rw
      (
        precision_of p (scale_bits (negsuc n)) hp (scale_bits-lt (negsuc n) hs),
        scale_of p (scale_bits (negsuc n)) hp (scale_bits-lt (negsuc n) hs),
        read_scale (negsuc n) hs,
      )
      refl
