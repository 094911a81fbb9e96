-- ===== src/Postgres/Values.antt =====
-- The values that Postgres can hold, and what the crates that write and read them document: for the
-- round trips of destination/arrow_to_pg.rs and source/pg_to_arrow.rs.
use transferred.Prelude.{
  ℕ, zero, suc, ◌<◌, ◌≡◌, Text, List, [], ◌∷◌, Option, some, none, ok, true, length, All,
}
use transferred.Prelude.Int.{ℤ, IsSigned}
use transferred.Prelude.Bytes.{Bytes}
use transferred.Prelude.Utf8.{is_utf8}
use transferred.Core.Arrow.{
  Array, bools, int16s, int32s, int64s, float32s, float64s, strings, binaries, fixed_binaries,
  date32s, timestamps, intervals, decimals, structs, MonthDayNano,
}
use transferred.Postgres.Protocol.{Protocol, Wire, PgInterval, not_null}
use transferred.Postgres.PgToArrow
use transferred.Postgres.PgToArrow.{Decoding}
use transferred.Postgres.ArrowToPg
use transferred.Postgres.ArrowToPg.{Encoding}
use transferred.Postgres.Intervals.{is_whole}
use transferred.Postgres.Casts.{is_null}
use transferred.Core.Arrow.{no_arrays, array_then}
use transferred.Prelude.{Bool, false, ◌&&◌, get_elem?, ◌≤◌, arith}
use transferred.Postgres.Protocol.{PgType}

-- A value goes out as bytes, fewer than 64 KiB of them, and is read back from them.
abbrev pub Sends : {A : Type 0} → Wire A → A → Type 0
Sends wire v =
    (bytes : Bytes) × (length bytes < 65536)
    × (wire.to_sql v ≡ ok (not_null, bytes))
    × (wire.from_sql bytes ≡ ok v)

abbrev pub IsPgInterval : PgInterval → Type 0
IsPgInterval i =
    IsSigned 2147483648 i.months
    × IsSigned 2147483648 i.days
    × IsSigned 9223372036854775808 i.microseconds

-- What `postgres-types`, `chrono`, `uuid`, `rust_decimal` and `pg_interval` document: the writers and
-- readers of a type are inverse, and so are the conversions between the crates.
pub record IsFaithful (P : Protocol) : Type 0 where
  pub bool_lem : (v : _) → Sends P.bool_wire v
  pub int2_lem : (v : ℤ) → IsSigned 32768 v → Sends P.int2_wire v
  pub int4_lem : (v : ℤ) → IsSigned 2147483648 v → Sends P.int4_wire v
  pub int8_lem : (v : ℤ) → IsSigned 9223372036854775808 v → Sends P.int8_wire v
  pub float4_lem : (v : ℕ) → v < 4294967296 → Sends P.float4_wire v
  pub float8_lem : (v : ℕ) → v < 18446744073709551616 → Sends P.float8_wire v
  pub bytea_lem : (v : Bytes) → P.bytea_wire.to_sql v ≡ ok (not_null, v)
  pub uuid_lem :
      (v : Bytes)
      → length v ≡ 16
      → (u : P.Uuid) × (P.uuid_from_slice v ≡ ok u) × (P.into_bytes u ≡ v) × Sends P.uuid_wire u
  pub date_lem :
      (n : ℤ) (d : P.NaiveDate)
      → P.to_naive_date_opt n ≡ some d
      → (P.from_naive_date d ≡ n) × Sends P.date_wire d
  pub timestamp_lem :
      (n : ℤ) (t : P.DateTime)
      → P.from_timestamp_micros n ≡ some t
      → (P.timestamp_micros t ≡ n)
        × (P.and_utc (P.naive_utc t) ≡ t)
        × Sends P.timestamp_wire (P.naive_utc t)
        × Sends P.timestamptz_wire t
  pub interval_lem : (i : PgInterval) → IsPgInterval i → Sends P.interval_wire i
  pub numeric_lem :
      (units : ℤ) (scale : ℕ) (d : P.Decimal)
      → P.try_from_i128_with_scale units scale ≡ ok d
      → (P.decimal_scale (P.rescale d scale) ≡ scale)
        × (P.mantissa (P.rescale d scale) ≡ units)
        × Sends P.numeric_wire d

-- The slot of a row, and what holds of it unless it is a null.
abbrev pub slot : {A : Type 0} → List (Option A) → ℕ → Option A
slot [] row = none
slot (x ∷ xs) zero = x
slot (x ∷ xs) (suc row) = slot xs row

abbrev pub OnSome : {A : Type 0} → (A → Type 0) → Option A → Type 0
OnSome Q none = Unit
OnSome Q (some v) = Q v

abbrev pub AllSome : {A : Type 0} → (A → Type 0) → List (Option A) → Type 0
AllSome Q xs = All (OnSome Q) xs

abbrev pub IsText : Text → Type 0
IsText s = (is_utf8 s ≡ true) × (length s < 2147483648)

abbrev pub IsShortBytes : Bytes → Type 0
IsShortBytes bytes = length bytes < 2147483648

-- Whole microseconds, in an interval of `i32`s and an `i64`.
abbrev pub IsStoredInterval : MonthDayNano → Type 0
IsStoredInterval spans =
    IsSigned 2147483648 spans.months
    × IsSigned 2147483648 spans.days
    × IsSigned 9223372036854775808 spans.nanoseconds
    × (is_whole spans.nanoseconds ≡ true)

-- What an encoding's values may take, in bytes.
abbrev pub limit : Encoding → ℕ
limit ArrowToPg.text = 2147483648
limit ArrowToPg.json = 2147483648
limit ArrowToPg.bytea = 2147483648
limit (ArrowToPg.geo tag) = 2147483648
limit (ArrowToPg.range over element) = 2147483648
limit _ = 65536

pub limit-le : (e : Encoding) → limit e ≤ 2147483648
limit-le ArrowToPg.text = omega arith
limit-le _ = omega arith

-- A row of a range as the source makes it: whether it is valid, whether each bound is null, and the
-- three flags. An infinite bound is not inclusive.
abbrev pub IsFlag : Bool → Bool → Type 0
IsFlag is_infinite inc = is_infinite && inc ≡ false

pub data RangeSlots : Bool → Bool → Bool → Bool → Bool → Bool → Type 0 where
  null_row : RangeSlots false true true false false false
  empty_row : RangeSlots true true true false false true
  bounds_row :
      (lower_null upper_null lower_inc upper_inc : Bool)
      → IsFlag lower_null lower_inc
      → IsFlag upper_null upper_inc
      → RangeSlots true lower_null upper_null lower_inc upper_inc false

abbrev pub HasRange :
    List Bool
    → Array
    → Array
    → List (Option Bool)
    → List (Option Bool)
    → List (Option Bool)
    → ℕ
    → Type 0
HasRange valid lowers uppers lower_incs upper_incs empties row =
    (is_valid : Bool) × (lower_inc : Bool) × (upper_inc : Bool) × (is_empty : Bool) × (get_elem?
        valid row
      ≡ some is_valid)
    × (slot lower_incs row ≡ some lower_inc)
    × (slot upper_incs row ≡ some upper_inc)
    × (slot empties row ≡ some is_empty)
    × RangeSlots is_valid (is_null lowers row) (is_null uppers row) lower_inc upper_inc is_empty

module _ (P : Protocol) where
  abbrev pub IsDate : ℤ → Type 0
  IsDate n = (d : P.NaiveDate) × (P.to_naive_date_opt n ≡ some d)

  abbrev pub IsTimestamp : ℤ → Type 0
  IsTimestamp n = (t : P.DateTime) × (P.from_timestamp_micros n ≡ some t)

  abbrev pub IsNumeric : ℕ → ℤ → Type 0
  IsNumeric scale units = (d : P.Decimal) × (P.try_from_i128_with_scale units scale ≡ ok d)

  -- An array of the encoding's class, whose values Postgres can hold.
  abbrev pub IsStorable : Encoding → Array → Type 0
  IsStorable ArrowToPg.bool (bools xs) = Unit
  IsStorable ArrowToPg.int2 (int16s xs) = AllSome (IsSigned 32768) xs
  IsStorable ArrowToPg.int4 (int32s xs) = AllSome (IsSigned 2147483648) xs
  IsStorable ArrowToPg.int8 (int64s xs) = AllSome (IsSigned 9223372036854775808) xs
  IsStorable ArrowToPg.float4 (float32s xs) = AllSome (λ v. v < 4294967296) xs
  IsStorable ArrowToPg.float8 (float64s xs) = AllSome (λ v. v < 18446744073709551616) xs
  IsStorable ArrowToPg.text (strings xs) = AllSome IsText xs
  IsStorable ArrowToPg.json (strings xs) = AllSome IsText xs
  IsStorable ArrowToPg.bytea (binaries xs) = AllSome IsShortBytes xs
  IsStorable (ArrowToPg.geo tag) (binaries xs) = AllSome IsShortBytes xs
  IsStorable ArrowToPg.uuid (fixed_binaries xs) = AllSome (λ v. length v ≡ 16) xs
  IsStorable ArrowToPg.date (date32s xs) = AllSome IsDate xs
  IsStorable ArrowToPg.timestamp (timestamps xs) = AllSome IsTimestamp xs
  IsStorable ArrowToPg.timestamptz (timestamps xs) = AllSome IsTimestamp xs
  IsStorable ArrowToPg.interval (intervals xs) = AllSome IsStoredInterval xs
  IsStorable (ArrowToPg.numeric precision scale) (decimals xs) = AllSome (IsNumeric scale) xs
  IsStorable (ArrowToPg.range over element)
        (structs valid (
          array_then lowers (
            array_then uppers (
              array_then
                (bools lower_incs)
                (array_then (bools upper_incs) (array_then (bools empties) no_arrays)))))) =
      (limit element ≡ 65536)
      × IsStorable element lowers
      × IsStorable element uppers
      × ((row : ℕ)
          → row < length valid
          → HasRange valid lowers uppers lower_incs upper_incs empties row)
  IsStorable e a = ⊥

-- The decodings that read the Postgres type that an encoding writes.
pub data Reads : Encoding → Decoding → Type 0 where
  bool : Reads ArrowToPg.bool PgToArrow.bool
  int2 : Reads ArrowToPg.int2 PgToArrow.int2
  int4 : Reads ArrowToPg.int4 PgToArrow.int4
  int8 : Reads ArrowToPg.int8 PgToArrow.int8
  float4 : Reads ArrowToPg.float4 PgToArrow.float4
  float8 : Reads ArrowToPg.float8 PgToArrow.float8
  text : Reads ArrowToPg.text PgToArrow.text
  json : Reads ArrowToPg.json PgToArrow.json
  bytea : Reads ArrowToPg.bytea PgToArrow.bytea
  uuid : Reads ArrowToPg.uuid PgToArrow.uuid
  date : Reads ArrowToPg.date PgToArrow.date
  timestamp : Reads ArrowToPg.timestamp PgToArrow.timestamp
  timestamptz : Reads ArrowToPg.timestamptz PgToArrow.timestamptz
  interval : Reads ArrowToPg.interval PgToArrow.interval
  numeric :
      (precision scale : ℕ)
      → Reads (ArrowToPg.numeric precision scale) (PgToArrow.numeric precision scale)
  geo : (written read : _) → Reads (ArrowToPg.geo written) (PgToArrow.geo read)
  opaque : (name vendor : Text) → Reads ArrowToPg.bytea (PgToArrow.opaque name vendor)
  range :
      (over : PgType) {e : Encoding} {d : Decoding}
      → Reads e d
      → Reads (ArrowToPg.range over e) (PgToArrow.range d)
