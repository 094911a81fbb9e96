-- ===== src/Postgres/FaithfulRanges.antt =====
-- The small instance of `Protocol` writes and parses ranges as `CarriesRanges` asks.
use transferred.Prelude.{
  ℕ, ◌+◌, ◌-◌, ◌*◌, ◌/◌, ◌%◌, ◌<◌, ◌≡◌, refl, ap, ◌∙◌, [], ◌++◌, some, none, ok, length,
  length-append, take-append, drop-append, Bool, true, false, arith, ◌==◌,
}
use transferred.Prelude.Int.{pos}
use transferred.Prelude.Bytes.{be_i32, try_get_i32, try_get_i32-be_i32}
use transferred.Postgres.Protocol.{Cell, IsNull, RangeBound, nonempty}
use transferred.Postgres.RangeRoundTrip.{CarriesRanges, announced, parsed, content}
use transferred.Postgres.SampleRanges.{code, coded, joined, range_from_sql, with_low, with_high}
use transferred.Postgres.Windows.{take_all}
use transferred.Postgres.Samples.{plain}

flagged : (a b : ℕ) → (2 + a + 3 * b == 1) ≡ false
flagged a b = ground arith

low_code :
    (cell : Cell) (inc : Bool) (b : ℕ)
    → (2 + code (announced cell inc) + 3 * b - 2) % 3 ≡ code (announced cell inc)
low_code none inc b = omega arith
low_code (some bytes) true b = omega arith
low_code (some bytes) false b = omega arith

high_code : (cell : Cell) (inc : Bool) (b : ℕ) → (2 + code (announced cell inc) + 3 * b - 2) / 3 ≡ b
high_code none inc b = omega arith
high_code (some bytes) true b = omega arith
high_code (some bytes) false b = omega arith

coded-code :
    (cell : Cell) (inc : Bool) → coded (code (announced cell inc)) (content cell) ≡ parsed cell inc
coded-code none inc = refl
coded-code (some bytes) true = refl
coded-code (some bytes) false = refl

with_high-joined :
    (hi : Cell) (hi_inc : Bool) (lo : _) (c : ℕ)
    → c ≡ code (announced hi hi_inc)
    → length (content hi) < 2147483648
    → with_high c lo (try_get_i32 (be_i32 (pos (length (content hi))) ++ content hi))
      ≡ ok (nonempty lo (parsed hi hi_inc))
with_high-joined hi hi_inc lo c same few =
    ap (with_high c lo) (try_get_i32-be_i32 (pos (length (content hi))) (content hi) few)
    ∙ rw (take_all (content hi), same) (ap (λ bound. ok (nonempty lo bound)) (coded-code hi hi_inc))

range_from_sql-joined :
    (lo hi : Cell) (lo_inc hi_inc : Bool)
    → length (content lo) + length (content hi) < 2147483639
    → range_from_sql (joined (announced lo lo_inc, content lo) (announced hi hi_inc, content hi))
      ≡ ok (nonempty (parsed lo lo_inc) (parsed hi hi_inc))
range_from_sql-joined lo hi lo_inc hi_inc few =
    let a = code (announced lo lo_inc) in
    let b = code (announced hi hi_inc) in
    let rest = be_i32 (pos (length (content hi))) ++ content hi in
    let low : coded ((2 + a + 3 * b - 2) % 3) (content lo) ≡ parsed lo lo_inc =
      rw (low_code lo lo_inc b) (coded-code lo lo_inc) in
    rw (flagged a b) (
      ap (with_low (2 + a + 3 * b - 2))
        (try_get_i32-be_i32 (pos (length (content lo))) (content lo ++ rest) (omega arith))
      ∙ rw (take-append (content lo) rest, drop-append (content lo) rest, low)
          (with_high-joined hi hi_inc (parsed lo lo_inc) _ (high_code lo lo_inc b) (omega arith)))

short :
    (lo hi : Cell) (lo_bound hi_bound : RangeBound IsNull)
    → length (content lo) + length (content hi) < 2147483639
    → length (joined (lo_bound, content lo) (hi_bound, content hi)) < 2147483648
unfolding be_i32
short lo hi lo_bound hi_bound few =
    omega (arith, length-append (content lo) (be_i32 (pos (length (content hi))) ++ content hi))

pub plain-CarriesRanges : CarriesRanges plain
plain-CarriesRanges = record {
  empty_short = omega arith;
  empty_lem = refl;
  range_lem = λ write_lo write_hi lo hi lo_inc hi_inc writes_lo writes_hi few. (
    joined (announced lo lo_inc, content lo) (announced hi hi_inc, content hi),
    short lo hi (announced lo lo_inc) (announced hi hi_inc) few,
    rw (writes_lo [], writes_hi []) refl,
    range_from_sql-joined lo hi lo_inc hi_inc few,
  );
}
