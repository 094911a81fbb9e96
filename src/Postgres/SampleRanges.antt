-- ===== src/Postgres/SampleRanges.antt =====
-- Ranges of a small instance of `Protocol`, for the examples: a flag, and both bounds behind their
-- lengths.
use transferred.Prelude.{
  ℕ, zero, suc, ◌+◌, ◌-◌, ◌*◌, ◌/◌, ◌%◌, ◌≡◌, refl, ap, [], ◌∷◌, ◌++◌, append_assoc, Option, some,
  Result, ok, err, map_ok, ◌>>=◌, length, take, drop, ◌==◌, if◌then◌else◌,
}
use transferred.Prelude.Int.{ℤ, pos}
use transferred.Prelude.Bytes.{Bytes, be_i32, try_get_i32}
use transferred.Core.Error.{AnyError}
use transferred.Postgres.Protocol.{
  Cell, IsNull, not_null, RangeBound, inclusive, exclusive, unbounded, BoundWriter, Range, empty,
  nonempty,
}
use transferred.Postgres.SampleWires.{broken}

abbrev pub code : RangeBound IsNull → ℕ
code (inclusive not_null) = 1
code (exclusive not_null) = 2
code _ = 0

abbrev pub coded : ℕ → Bytes → RangeBound Cell
coded zero bytes = unbounded
coded (suc zero) bytes = inclusive (some bytes)
coded (suc (suc c)) bytes = exclusive (some bytes)

abbrev pub joined : RangeBound IsNull × Bytes → RangeBound IsNull × Bytes → Bytes
joined (lo, los) (hi, his) =
    (2 + code lo + 3 * code hi)
    ∷ (be_i32 (pos (length los)) ++ (los ++ (be_i32 (pos (length his)) ++ his)))

abbrev pub range_to_sql : BoundWriter → BoundWriter → Bytes → Result Bytes AnyError
range_to_sql lo hi buf = lo [] >>= λ p. hi [] >>= λ q. ok (buf ++ joined p q)

abbrev pub with_high : ℕ → RangeBound Cell → Option (ℤ × Bytes) → Result Range AnyError
with_high c lo (some (pos n, rest)) = ok (nonempty lo (coded c (take n rest)))
with_high c lo _ = err broken

abbrev pub with_low : ℕ → Option (ℤ × Bytes) → Result Range AnyError
with_low c (some (pos n, rest)) =
    with_high (c / 3) (coded (c % 3) (take n rest)) (try_get_i32 (drop n rest))
with_low c _ = err broken

abbrev pub range_from_sql : Bytes → Result Range AnyError
range_from_sql [] = err broken
range_from_sql (flag ∷ rest) =
    if flag == 1 then ok empty else with_low (flag - 2) (try_get_i32 rest)

pub range_to_sql-append :
    (lo hi : BoundWriter) (pre buf : Bytes)
    → range_to_sql lo hi (pre ++ buf) ≡ map_ok (λ out. pre ++ out) (range_to_sql lo hi buf)
range_to_sql-append lo hi pre buf = go (lo []) (hi [])
  where
    go :
        (r s : Result (RangeBound IsNull × Bytes) AnyError)
        → (r >>= λ p. s >>= λ q. ok ((pre ++ buf) ++ joined p q))
          ≡ map_ok (λ out. pre ++ out) (r >>= λ p. s >>= λ q. ok (buf ++ joined p q))
    go (ok p) (ok q) = ap ok (append_assoc pre buf (joined p q))
    go (ok p) (err e) = refl
    go (err e) s = refl
