-- ===== src/Postgres/Write.antt =====
-- crates/transferred-postgres/src/destination/arrow_to_pg.rs: one value of an array onto the COPY
-- buffer.
use transferred.Prelude.{
  ℕ, suc, ◌+◌, ◌/◌, ◌%◌, Text, List, [], ◌∷◌, ◌++◌, Option, some, none, Result, ok, err, map_err,
  Bool, true, false, ◌>>=◌, if◌then◌else◌, ok_or, ◌==◌,
}
use transferred.Prelude.Int.{ℤ, pos, negsuc}
use transferred.Prelude.Bytes.{Bytes}
use transferred.Core.Error.{
  lit, nat, int, AnyError, root, caused, Outcome, TransferredError, in_source, in_destination,
  empty_source, io, not_found, other_io, arrow, destination_failed, display,
}
use transferred.Core.Arrow.{Array, Arrays, no_arrays, array_then, MonthDayNano}
use transferred.Postgres.Constants.{nanos_per_micro}
use transferred.Postgres.Protocol.{
  Protocol, Wire, PgInterval, IsNull, null, not_null, RangeBound, inclusive, exclusive, unbounded,
}
use transferred.Postgres.ArrowToPg.{
  Encoding, bool, int2, int4, int8, float4, float8, text, json, bytea, uuid, date, timestamp,
  timestamptz, interval, numeric, geo, range,
}
use transferred.Postgres.Casts.{
  value, is_null, as_binaries, as_bools, as_date32s, as_decimals, as_fixed_binaries, as_float32s,
  as_float64s, as_int16s, as_int32s, as_int64s, as_intervals, as_strings, as_structs, as_timestamps,
}

-- A `TransferredError` boxed as any error: what it displays, over its cause.
unfoldable pub boxed : TransferredError → AnyError
boxed (in_source cause) = caused (display (in_source cause)) cause
boxed (in_destination cause) = caused (display (in_destination cause)) cause
boxed empty_source = root (display empty_source)
boxed (io (not_found cause)) = caused (display (io (not_found cause))) cause
boxed (io (other_io cause)) = caused (display (io (other_io cause))) cause
boxed (arrow cause) = caused (display (arrow cause)) cause

-- The quotient of a nanosecond count by `NANOS_PER_MICRO`, if it leaves no remainder.
unfoldable pub whole_micros : ℤ → Option ℤ
whole_micros (pos n) = if n % nanos_per_micro == 0 then some (pos (n / nanos_per_micro)) else none
whole_micros (negsuc n) =
    if (n + 1) % nanos_per_micro == 0 then some (negsuc (n / nanos_per_micro)) else none

abbrev pub too_fine : ℤ → TransferredError
too_fine nanoseconds = destination_failed (
    lit "`interval` of "
    ∷ int nanoseconds
    ∷ lit "ns is finer than the microsecond Postgres stores"
    ∷ [])

unfoldable pub pg_interval : MonthDayNano → Outcome PgInterval
unfolding whole_micros
pg_interval spans = do
  micros ← ok_or (too_fine spans.nanoseconds) (whole_micros spans.nanoseconds)
  ok (record { months = spans.months; days = spans.days; microseconds = micros })

children_count : Arrays → ℕ
children_count no_arrays = 0
children_count (array_then a rest) = suc (children_count rest)

wrong_children : ℕ → TransferredError
wrong_children count =
    destination_failed (lit "a range column holds five children, not " ∷ nat count ∷ [])

unfoldable pub pick_bound : IsNull → Bool → RangeBound IsNull
pick_bound null inc = unbounded
pick_bound not_null true = inclusive not_null
pick_bound not_null false = exclusive not_null

-- A bound for the value just written; a null one is infinite.
unfoldable pub bound_of :
    Outcome (IsNull × Bytes) → Array → ℕ → Result (RangeBound IsNull × Bytes) AnyError
unfolding value as_bools boxed pick_bound
bound_of written flags row = do
  xs ← map_err boxed (as_bools flags)
  (n, out) ← map_err boxed written
  ok (pick_bound n (value false xs row), out)

module _ (P : Protocol) where
  open P use {
    NaiveDate, DateTime, Decimal, Uuid, bool_wire, int2_wire, int4_wire, int8_wire, float4_wire,
    float8_wire, bytea_wire, uuid_wire, date_wire, timestamp_wire, timestamptz_wire, interval_wire,
    numeric_wire, to_naive_date_opt, naive_utc, from_timestamp_micros, uuid_from_slice,
    try_from_i128_with_scale, range_to_sql, empty_range_to_sql,
  }

  unfoldable pub pg_numeric : ℤ → ℕ → Outcome Decimal
  pg_numeric units scale = map_err in_destination (try_from_i128_with_scale units scale)

  unfoldable pub pg_date : ℤ → Outcome NaiveDate
  pg_date days =
      ok_or
        (destination_failed
          (lit "`date` " ∷ int days ∷ lit " days from epoch is out of range" ∷ []))
        (to_naive_date_opt days)

  unfoldable pub pg_timestamp : ℤ → Outcome DateTime
  pg_timestamp micros =
      ok_or
        (destination_failed
          (lit "timestamp " ∷ int micros ∷ lit "µs from epoch is out of range" ∷ []))
        (from_timestamp_micros micros)

  unfoldable pub pg_uuid : Bytes → Outcome Uuid
  pg_uuid bytes = map_err in_destination (uuid_from_slice bytes)

  -- `value.to_sql(&pg_type, buf)` with its error mapped.
  unfoldable pub put : {A : Type 0} → Wire A → A → Bytes → Outcome (IsNull × Bytes)
  put wire v buf = do (n, bytes) ← map_err in_destination (wire.to_sql v); ok (n, buf ++ bytes)

  module _ (element : Array → ℕ → Bytes → Outcome (IsNull × Bytes)) where
    -- Behind the flag of the empty range.
    unfoldable pub write_bounds :
        Bool → Array → Array → Array → Array → ℕ → Bytes → Outcome (IsNull × Bytes)
    unfolding bound_of
    write_bounds true lowers uppers lower_incs upper_incs row buf =
        ok (not_null, empty_range_to_sql buf)
    write_bounds false lowers uppers lower_incs upper_incs row buf = do
      out ← map_err in_destination (
          range_to_sql (λ out. bound_of (element lowers row out) lower_incs row)
            (λ out. bound_of (element uppers row out) upper_incs row) buf)
      ok (not_null, out)

    unfoldable pub write_range : Arrays → ℕ → Bytes → Outcome (IsNull × Bytes)
    unfolding value as_bools write_bounds wrong_children children_count
    write_range
          (array_then lowers (
            array_then uppers
              (array_then lower_incs (array_then upper_incs (array_then empties no_arrays)))))
          row buf =
        do
          flags ← as_bools empties
          write_bounds (value false flags row) lowers uppers lower_incs upper_incs row buf
    write_range children row buf = err (wrong_children (children_count children))

  -- Nulls stop before any cast.
  unfoldable pub unless_null :
      Array → ℕ → Bytes → Outcome (IsNull × Bytes) → Outcome (IsNull × Bytes)
  unfolding is_null
  unless_null a row buf written = if is_null a row then ok (null, buf) else written

  abbrev pub zero_interval : MonthDayNano
  zero_interval = record { months = pos 0; days = pos 0; nanoseconds = pos 0 }

  unfoldable pub put_text : List (Option Text) → ℕ → Bytes → Outcome (IsNull × Bytes)
  unfolding value
  put_text xs row buf = ok (not_null, buf ++ value [] xs row)

  unfoldable pub write : Encoding → Array → ℕ → Bytes → Outcome (IsNull × Bytes)
  unfolding unless_null put_text value put pg_numeric pg_date pg_timestamp pg_uuid pg_interval
      write_range as_bools as_int16s as_int32s as_int64s as_float32s as_float64s as_strings
      as_binaries as_fixed_binaries as_date32s as_timestamps as_intervals as_decimals as_structs
  write bool a row buf =
      unless_null a row buf do xs ← as_bools a; put bool_wire (value false xs row) buf
  write int2 a row buf =
      unless_null a row buf do xs ← as_int16s a; put int2_wire (value (pos 0) xs row) buf
  write int4 a row buf =
      unless_null a row buf do xs ← as_int32s a; put int4_wire (value (pos 0) xs row) buf
  write int8 a row buf =
      unless_null a row buf do xs ← as_int64s a; put int8_wire (value (pos 0) xs row) buf
  write float4 a row buf =
      unless_null a row buf do xs ← as_float32s a; put float4_wire (value 0 xs row) buf
  write float8 a row buf =
      unless_null a row buf do xs ← as_float64s a; put float8_wire (value 0 xs row) buf
  write text a row buf = unless_null a row buf do xs ← as_strings a; put_text xs row buf
  write json a row buf = unless_null a row buf do xs ← as_strings a; put_text xs row buf
  write bytea a row buf =
      unless_null a row buf do xs ← as_binaries a; put bytea_wire (value [] xs row) buf
  write (geo tag) a row buf =
      unless_null a row buf do xs ← as_binaries a; put bytea_wire (value [] xs row) buf
  write uuid a row buf =
      unless_null a row buf
        do xs ← as_fixed_binaries a; v ← pg_uuid (value [] xs row); put uuid_wire v buf
  write date a row buf =
      unless_null a row buf
        do xs ← as_date32s a; v ← pg_date (value (pos 0) xs row); put date_wire v buf
  write timestamp a row buf = unless_null a row buf do
    xs ← as_timestamps a
    v ← pg_timestamp (value (pos 0) xs row)
    put timestamp_wire (naive_utc v) buf
  write timestamptz a row buf =
      unless_null a row buf
        do xs ← as_timestamps a; v ← pg_timestamp (value (pos 0) xs row); put timestamptz_wire v buf
  write interval a row buf =
      unless_null a row buf do
        xs ← as_intervals a
        v ← pg_interval (value zero_interval xs row)
        put interval_wire v buf
  write (numeric precision scale) a row buf =
      unless_null a row buf
        do xs ← as_decimals a; v ← pg_numeric (value (pos 0) xs row) scale; put numeric_wire v buf
  write (range over element) a row buf =
      unless_null a row buf do children ← as_structs a; write_range (write element) children row buf
