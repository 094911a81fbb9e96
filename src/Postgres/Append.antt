-- ===== src/Postgres/Append.antt =====
-- crates/transferred-postgres/src/source/pg_to_arrow.rs: one cell onto the builder of its column.
use transferred.Prelude.{
  ℕ, ◌+◌, ◌*◌, Text, [], ◌∷◌, ◌++◌, Option, some, none, Result, ok, err, map_err, Bool, true, false,
  traverse, ok_or, ◌>>=◌, if◌then◌else◌, ltb, leb, ◌==◌, not,
}
use transferred.Prelude.Int.{ℤ, pos, negsuc}
use transferred.Prelude.Bytes.{Bytes}
use transferred.Prelude.Utf8.{is_utf8}
use transferred.Core.Error.{
  lit, nat, foreign, root, AnyError, Outcome, TransferredError, in_source, source_failed,
}
use transferred.Core.Arrow.{
  Array, bools, int16s, int32s, int64s, float32s, float64s, strings, binaries, fixed_binaries,
  date32s, timestamps, intervals, decimals, structs, Arrays, no_arrays, array_then, MonthDayNano,
}
use transferred.Postgres.Constants.{nanos_per_micro}
use transferred.Postgres.Protocol.{
  Protocol, Wire, Cell, PgInterval, Range, empty, nonempty, RangeBound, inclusive, exclusive,
  unbounded,
}
use transferred.Postgres.PgToArrow.{
  Decoding, bool, int2, int4, int8, float4, float8, text, json, jsonb, bytea, uuid, date, timestamp,
  timestamptz, interval, numeric, geo, range, opaque,
}

-- The error of `cast`: the builder is of another class.
abbrev pub miscast : TransferredError
miscast = source_failed (lit "column is not a " ∷ foreign "the type name" ∷ [])

unfoldable pub utf8 : Bytes → Outcome Text
utf8 bytes =
    if is_utf8 bytes then ok bytes else err (in_source (root (foreign "the Utf8Error" ∷ [])))

abbrev pub wrong_version : TransferredError
wrong_version = source_failed (lit "`jsonb` arrived in an encoding version other than 1" ∷ [])

unfoldable pub strip_version : Bytes → Outcome Bytes
strip_version [] = err wrong_version
strip_version (version ∷ document) = if version == 1 then ok document else err wrong_version

-- `checked_mul` of an `i64` by `NANOS_PER_MICRO`.
checked_nanos : ℤ → Option ℤ
checked_nanos (pos n) =
    if ltb (n * nanos_per_micro) 0x8000_0000_0000_0000
    then some (pos (n * nanos_per_micro))
    else none
checked_nanos (negsuc n) =
    if leb ((n + 1) * nanos_per_micro) 0x8000_0000_0000_0000
    then some (negsuc (n * nanos_per_micro + 999))
    else none

abbrev pub interval_too_long : TransferredError
interval_too_long =
    source_failed
      (lit "`interval` exceeds the nanosecond range of Arrow `Interval(MonthDayNano)`" ∷ [])

unfoldable pub month_day_nano : PgInterval → Outcome MonthDayNano
unfolding checked_nanos
month_day_nano value = do
  nanos ← ok_or interval_too_long (checked_nanos value.microseconds)
  ok (record { months = value.months; days = value.days; nanoseconds = nanos })

-- A bound's bytes and whether it is inclusive.
unfoldable pub bound : RangeBound Cell → Cell × Bool
bound (inclusive bytes) = (bytes, true)
bound (exclusive bytes) = (bytes, false)
bound unbounded = (none, false)

-- Both bounds of what was parsed; a NULL and an empty range have none.
unfoldable pub bounds_of : Option Range → (Cell × Bool) × (Cell × Bool)
unfolding bound
bounds_of (some (nonempty low high)) = (bound low, bound high)
bounds_of _ = ((none, false), (none, false))

unfoldable pub is_empty_range : Option Range → Bool
is_empty_range (some empty) = true
is_empty_range _ = false

unfoldable pub is_some_range : Option Range → Bool
is_some_range (some r) = true
is_some_range none = false

abbrev pub wrong_fields : TransferredError
wrong_fields =
    source_failed
      (lit "a `transferred.pg_range` column does not build the five fields it declares" ∷ [])

-- One flag onto a builder of Booleans: `tag(builder)?.append_value(flag)`.
unfoldable pub append_tag : Bool → Array → Outcome Array
append_tag flag (bools xs) = ok (bools (xs ++ some flag ∷ []))
append_tag flag _ = err miscast

module _ (element : Array → Cell → Outcome Array) where
  unfoldable pub append_children : Option Range → Arrays → Outcome Arrays
  unfolding append_tag bounds_of is_empty_range
  append_children parsed
        (array_then lower (
          array_then upper
            (array_then lower_inc (array_then upper_inc (array_then empty_flag no_arrays))))) =
      do
        let limits = bounds_of parsed
        lower' ← element lower limits.0.0
        upper' ← element upper limits.1.0
        lower_inc' ← append_tag limits.0.1 lower_inc
        upper_inc' ← append_tag limits.1.1 upper_inc
        empty' ← append_tag (is_empty_range parsed) empty_flag
        ok (
            array_then lower' (
              array_then upper'
                (array_then lower_inc' (array_then upper_inc' (array_then empty' no_arrays)))))
  append_children parsed _ = err wrong_fields

  unfoldable pub append_range : (Bytes → Result Range AnyError) → Array → Cell → Outcome Array
  unfolding append_children is_some_range
  append_range parse (structs valid children) cell = do
    parsed ← map_err in_source (traverse parse cell)
    children' ← append_children parsed children
    ok (structs (valid ++ is_some_range parsed ∷ []) children')
  append_range parse _ cell = err miscast

module _ (P : Protocol) where
  open P use {
    Decimal, Uuid, bool_wire, int2_wire, int4_wire, int8_wire, float4_wire, float8_wire, uuid_wire,
    date_wire, timestamp_wire, timestamptz_wire, interval_wire, numeric_wire, from_naive_date,
    and_utc, timestamp_micros, into_bytes, rescale, decimal_scale, mantissa, range_from_sql,
  }

  unfoldable pub decimal_units : Decimal → ℕ → Outcome ℤ
  decimal_units decimal scale =
      let rescaled = rescale decimal scale in
      if not (decimal_scale rescaled == scale)
      then err (
          source_failed (
            lit "`numeric` value "
            ∷ foreign "the decimal"
            ∷ lit " does not fit scale "
            ∷ nat scale
            ∷ []))
      else ok (mantissa rescaled)

  unfoldable pub decode : {A : Type 0} → Wire A → Cell → Outcome (Option A)
  decode wire cell = map_err in_source (traverse wire.from_sql cell)

  unfoldable pub fixed_16 : Option Uuid → Option Bytes
  fixed_16 none = none
  fixed_16 (some value) = some (into_bytes value)

  unfoldable pub days : Option P.NaiveDate → Option ℤ
  days none = none
  days (some value) = some (from_naive_date value)

  unfoldable pub utc_micros : Option P.NaiveDateTime → Option ℤ
  utc_micros none = none
  utc_micros (some value) = some (timestamp_micros (and_utc value))

  unfoldable pub micros : Option P.DateTime → Option ℤ
  micros none = none
  micros (some value) = some (timestamp_micros value)

  unfoldable pub append_text : Array → Option Text → Outcome Array
  append_text (strings xs) v = ok (strings (xs ++ v ∷ []))
  append_text _ v = err miscast

  -- `Decoding::append`: casts the builder to the class of the decoding, decodes the cell, appends.
  unfoldable pub append : Decoding → Array → Cell → Outcome Array
  unfolding append_text decode fixed_16 days utc_micros micros
  append bool (bools xs) cell = do v ← decode bool_wire cell; ok (bools (xs ++ v ∷ []))
  append int2 (int16s xs) cell = do v ← decode int2_wire cell; ok (int16s (xs ++ v ∷ []))
  append int4 (int32s xs) cell = do v ← decode int4_wire cell; ok (int32s (xs ++ v ∷ []))
  append int8 (int64s xs) cell = do v ← decode int8_wire cell; ok (int64s (xs ++ v ∷ []))
  append float4 (float32s xs) cell = do v ← decode float4_wire cell; ok (float32s (xs ++ v ∷ []))
  append float8 (float64s xs) cell = do v ← decode float8_wire cell; ok (float64s (xs ++ v ∷ []))
  append text (strings xs) cell = do v ← traverse utf8 cell; ok (strings (xs ++ v ∷ []))
  append json (strings xs) cell = do v ← traverse utf8 cell; ok (strings (xs ++ v ∷ []))
  append jsonb builder cell = do
    v ← traverse (λ document. strip_version document >>= utf8) cell
    append_text builder v
  append bytea (binaries xs) cell = ok (binaries (xs ++ cell ∷ []))
  append (geo tag) (binaries xs) cell = ok (binaries (xs ++ cell ∷ []))
  append (opaque name vendor) (binaries xs) cell = ok (binaries (xs ++ cell ∷ []))
  append uuid (fixed_binaries xs) cell = do
    v ← decode uuid_wire cell
    ok (fixed_binaries (xs ++ fixed_16 v ∷ []))
  append date (date32s xs) cell = do v ← decode date_wire cell; ok (date32s (xs ++ days v ∷ []))
  append timestamp (timestamps xs) cell = do
    v ← decode timestamp_wire cell
    ok (timestamps (xs ++ utc_micros v ∷ []))
  append timestamptz (timestamps xs) cell = do
    v ← decode timestamptz_wire cell
    ok (timestamps (xs ++ micros v ∷ []))
  append interval (intervals xs) cell = do
    v ← decode interval_wire cell
    nanos ← traverse month_day_nano v
    ok (intervals (xs ++ nanos ∷ []))
  append (numeric precision scale) (decimals xs) cell = do
    v ← decode numeric_wire cell
    units ← traverse (λ d. decimal_units d scale) v
    ok (decimals (xs ++ units ∷ []))
  append (range bounds) builder cell = append_range (append bounds) range_from_sql builder cell
  append _ builder cell = err miscast
