-- ===== src/Postgres/ValueRoundTrip.antt =====
-- A value as it is written, and read back: `Encoding::write` in destination/arrow_to_pg.rs against
-- `Decoding::append` in source/pg_to_arrow.rs.
use transferred.Prelude.{
  ℕ, ◌+◌, ◌<◌, ◌≡◌, refl, ap, sym, ◌∙◌, List, [], ◌∷◌, ◌++◌, Option, none, ok, ◌>>=◌, length, ◌≤◌,
  if◌then◌else◌, false, traverse,
}
use transferred.Prelude.Int.{pos, IsSigned}
use transferred.Prelude.Bytes.{Bytes}
use transferred.Core.Error.{Outcome}
use transferred.Core.Arrow.{
  Array, bools, int16s, int32s, int64s, float32s, float64s, strings, binaries, fixed_binaries,
  date32s, timestamps, intervals, decimals, structs, array_then, no_arrays,
}
use transferred.Postgres.Protocol.{Protocol, Wire, Cell, IsNull, null, not_null}
use transferred.Postgres.PgToArrow
use transferred.Postgres.PgToArrow.{Decoding}
use transferred.Postgres.ArrowToPg
use transferred.Postgres.ArrowToPg.{Encoding}
use transferred.Postgres.Append.{
  append, decode, utf8, fixed_16, days, utc_micros, micros, decimal_units, month_day_nano,
}
use transferred.Postgres.Write.{
  write, unless_null, put, put_text, pg_uuid, pg_date, pg_timestamp, pg_interval, pg_numeric,
  zero_interval,
}
use transferred.Postgres.Casts.{value, null_at, is_null}
use transferred.Postgres.RowRoundTrip.{written_of}
use transferred.Postgres.Carried.{Carried}
use transferred.Postgres.RangeColumns.{range-Carried}
use transferred.Postgres.RangeRoundTrip.{CarriesRanges}
use transferred.Postgres.Appending.{AppendsRanges}
use transferred.Postgres.Aligned.{IsAligned}
use transferred.Postgres.Values.{
  Sends, IsFaithful, AllSome, IsText, IsShortBytes, IsStorable, IsDate, IsTimestamp, IsNumeric,
  IsStoredInterval, Reads, bool, int2, int4, int8, float4, float8, text, json, bytea, uuid, date,
  timestamp, timestamptz, interval, numeric, geo, opaque, range,
}
use transferred.Postgres.Windows.{window}
use transferred.Postgres.Slots.{
  Returns, cell_of_slot, slot-OnSome, window_suc, get_elem?-slot, IsBelow, is_none, bind_assoc,
  all_unit,
}
use transferred.Postgres.ValueReturns.{
  text-Returns, bytes-Returns, uuid-Returns, date-Returns, timestamp-Returns, timestamptz-Returns,
  numeric-Returns, interval-Returns, put-decode,
}

-- The same, for a class of arrays and what its values may take, in bytes.
abbrev ColumnCarried :
    {A : Type 0}
    → Protocol
    → (List (Option A) → Array)
    → Encoding
    → Decoding
    → ℕ
    → List (Option A)
    → ℕ
    → ℕ
    → Type 0
ColumnCarried P class e d n xs from row =
    (cell : Cell) × IsBelow n cell
    × (null_at xs row ≡ is_none cell)
    × (write P e (class xs) row [] ≡ ok (written_of cell))
    × (append P d (class (window from row xs)) cell ≡ ok (class (window from (row + 1) xs)))

module _ (P : Protocol) where
  -- A class of arrays, whose rows are written and read by a writer and a reader that meet.
  module _ {A : Type 0} (n : ℕ) (class : List (Option A) → Array) (e : Encoding) (d : Decoding)
      (write_value : A → Outcome (IsNull × Bytes)) (read_cell : Cell → Outcome (Option A))
      (default : A)
      (writes : (xs : List (Option A)) (row : ℕ)
        → write P e (class xs) row []
          ≡ (if null_at xs row then ok (null, []) else write_value (value default xs row)))
      (reads : (xs : List (Option A)) (cell : Cell)
        → append P d (class xs) cell ≡ (read_cell cell >>= λ v. ok (class (xs ++ v ∷ []))))
      (nulls : read_cell none ≡ ok none) where
    column_carried :
        (Q : A → Type 0) (xs : List (Option A)) (from row : ℕ)
        → ((v : A) → Q v → Returns n write_value read_cell v)
        → from ≤ row
        → row < length xs
        → AllSome Q xs
        → ColumnCarried P class e d n xs from row
    column_carried Q xs from row returns le lt h =
        let (cell, few, nulls_meet, wrote, read) =
          cell_of_slot n write_value read_cell default nulls xs row lt
            (slot-OnSome Q _ xs row returns h) in
        (
          cell,
          few,
          nulls_meet,
          writes xs row ∙ wrote,
          reads (window from row xs) cell
              ∙ rw read (
                  ap (λ ys. ok (class ys))
                    (sym (window_suc xs from row le (get_elem?-slot xs row lt)))),
        )

module _ (P : Protocol) (laws : IsFaithful P) (appends : AppendsRanges P)
    (carries : CarriesRanges P) where
  -- The same for a class whose values a wire carries as they are.
  wire_carried :
      {A : Type 0} (class : List (Option A) → Array) (e : Encoding) (d : Decoding) (wire : Wire A)
      (default : A)
      (writes : (xs : List (Option A)) (row : ℕ)
        → write P e (class xs) row []
          ≡ (if null_at xs row then ok (null, []) else put P wire (value default xs row) []))
      (reads : (xs : List (Option A)) (cell : Cell)
        → append P d (class xs) cell ≡ (decode P wire cell >>= λ v. ok (class (xs ++ v ∷ []))))
      (Q : A → Type 0) (sends : (v : A) → Q v → Sends wire v) (xs : List (Option A)) (from row : ℕ)
      → from ≤ row
      → row < length xs
      → AllSome Q xs
      → ColumnCarried P class e d 65536 xs from row
  unfolding decode
  wire_carried class e d wire default writes reads Q sends xs from row le lt st =
      column_carried P 65536 class e d (λ v. put P wire v []) (decode P wire) default writes reads
        refl Q xs from row (λ v hv. put-decode P laws wire v (sends v hv)) le lt st

  -- Over crates whose writers and readers are inverse and range writers that append and whose
  -- ranges parse as their bounds: every row of a column whose values Postgres can hold, null rows
  -- too and ranges whose bounds are neither texts nor bytes, is written as a cell, a null one
  -- exactly for a null row, which the decoding of the same Postgres type appends as that row to the
  -- rows in front of it, from whatever row on.
  pub value-Carried :
      {e : Encoding} {d : Decoding}
      → Reads e d
      → (a : Array) (n from row : ℕ) → IsStorable P e a
      → IsAligned n a
      → from ≤ row
      → row < n
      → Carried P e d a from row
  unfolding write append unless_null is_null decode put_text put
  value-Carried int2 (int16s xs) n from row st len le lt =
      wire_carried int16s ArrowToPg.int2 PgToArrow.int2 P.int2_wire (pos 0) (λ xs row. refl)
        (λ xs cell. refl) (IsSigned 32768) laws.int2_lem xs from row le (rw len lt) st
  value-Carried int4 (int32s xs) n from row st len le lt =
      wire_carried int32s ArrowToPg.int4 PgToArrow.int4 P.int4_wire (pos 0) (λ xs row. refl)
        (λ xs cell. refl) (IsSigned 2147483648) laws.int4_lem xs from row le (rw len lt) st
  value-Carried int8 (int64s xs) n from row st len le lt =
      wire_carried int64s ArrowToPg.int8 PgToArrow.int8 P.int8_wire (pos 0) (λ xs row. refl)
        (λ xs cell. refl) (IsSigned 9223372036854775808) laws.int8_lem xs from row le (rw len lt) st
  value-Carried float4 (float32s xs) n from row st len le lt =
      wire_carried float32s ArrowToPg.float4 PgToArrow.float4 P.float4_wire 0 (λ xs row. refl)
        (λ xs cell. refl) (λ v. v < 4294967296) laws.float4_lem xs from row le (rw len lt) st
  value-Carried float8 (float64s xs) n from row st len le lt =
      wire_carried float64s ArrowToPg.float8 PgToArrow.float8 P.float8_wire 0 (λ xs row. refl)
        (λ xs cell. refl) (λ v. v < 18446744073709551616) laws.float8_lem xs from row le (rw len lt)
        st
  value-Carried text (strings xs) n from row st len le lt =
      column_carried P 2147483648 strings ArrowToPg.text PgToArrow.text (λ v. ok (not_null, v))
        (λ cell. traverse utf8 cell) [] (λ xs row. refl) (λ xs cell. refl) refl IsText xs from row
        (text-Returns P laws) le (rw len lt) st
  value-Carried json (strings xs) n from row st len le lt =
      column_carried P 2147483648 strings ArrowToPg.json PgToArrow.json (λ v. ok (not_null, v))
        (λ cell. traverse utf8 cell) [] (λ xs row. refl) (λ xs cell. refl) refl IsText xs from row
        (text-Returns P laws) le (rw len lt) st
  value-Carried bytea (binaries xs) n from row st len le lt =
      column_carried P 2147483648 binaries ArrowToPg.bytea PgToArrow.bytea
        (λ v. put P P.bytea_wire v []) (λ cell. ok cell) [] (λ xs row. refl) (λ xs cell. refl) refl
        IsShortBytes xs from row (bytes-Returns P laws) le (rw len lt) st
  value-Carried (geo written read) (binaries xs) n from row st len le lt =
      column_carried P 2147483648 binaries (ArrowToPg.geo written) (PgToArrow.geo read)
        (λ v. put P P.bytea_wire v []) (λ cell. ok cell) [] (λ xs row. refl) (λ xs cell. refl) refl
        IsShortBytes xs from row (bytes-Returns P laws) le (rw len lt) st
  value-Carried (opaque name vendor) (binaries xs) n from row st len le lt =
      column_carried P 2147483648 binaries ArrowToPg.bytea (PgToArrow.opaque name vendor)
        (λ v. put P P.bytea_wire v []) (λ cell. ok cell) [] (λ xs row. refl) (λ xs cell. refl) refl
        IsShortBytes xs from row (bytes-Returns P laws) le (rw len lt) st
  value-Carried uuid (fixed_binaries xs) n from row st len le lt =
      column_carried P 65536 fixed_binaries ArrowToPg.uuid PgToArrow.uuid
        (λ v. pg_uuid P v >>= λ u. put P P.uuid_wire u [])
        (λ cell. decode P P.uuid_wire cell >>= λ u. ok (fixed_16 P u)) [] (λ xs row. refl)
        (λ xs cell. bind_assoc (decode P P.uuid_wire cell) _ _) refl (λ v. length v ≡ 16) xs from
        row (uuid-Returns P laws) le (rw len lt) st
  value-Carried date (date32s xs) n from row st len le lt =
      column_carried P 65536 date32s ArrowToPg.date PgToArrow.date
        (λ v. pg_date P v >>= λ t. put P P.date_wire t [])
        (λ cell. decode P P.date_wire cell >>= λ t. ok (days P t)) (pos 0) (λ xs row. refl)
        (λ xs cell. bind_assoc (decode P P.date_wire cell) _ _) refl (IsDate P) xs from row
        (date-Returns P laws) le (rw len lt) st
  value-Carried timestamp (timestamps xs) n from row st len le lt =
      column_carried P 65536 timestamps ArrowToPg.timestamp PgToArrow.timestamp
        (λ v. pg_timestamp P v >>= λ t. put P P.timestamp_wire (P.naive_utc t) [])
        (λ cell. decode P P.timestamp_wire cell >>= λ t. ok (utc_micros P t)) (pos 0)
        (λ xs row. refl) (λ xs cell. bind_assoc (decode P P.timestamp_wire cell) _ _) refl
        (IsTimestamp P) xs from row (timestamp-Returns P laws) le (rw len lt) st
  value-Carried timestamptz (timestamps xs) n from row st len le lt =
      column_carried P 65536 timestamps ArrowToPg.timestamptz PgToArrow.timestamptz
        (λ v. pg_timestamp P v >>= λ t. put P P.timestamptz_wire t [])
        (λ cell. decode P P.timestamptz_wire cell >>= λ t. ok (micros P t)) (pos 0) (λ xs row. refl)
        (λ xs cell. bind_assoc (decode P P.timestamptz_wire cell) _ _) refl (IsTimestamp P) xs from
        row (timestamptz-Returns P laws) le (rw len lt) st
  value-Carried interval (intervals xs) n from row st len le lt =
      column_carried P 65536 intervals ArrowToPg.interval PgToArrow.interval
        (λ v. pg_interval v >>= λ t. put P P.interval_wire t [])
        (λ cell. decode P P.interval_wire cell >>= λ t. traverse month_day_nano t) (zero_interval P)
        (λ xs row. refl) (λ xs cell. bind_assoc (decode P P.interval_wire cell) _ _) refl
        (IsStoredInterval) xs from row (interval-Returns P laws) le (rw len lt) st
  value-Carried (numeric precision scale) (decimals xs) n from row st len le lt =
      column_carried P 65536 decimals (ArrowToPg.numeric precision scale)
        (PgToArrow.numeric precision scale)
        (λ v. pg_numeric P v scale >>= λ t. put P P.numeric_wire t [])
        (λ cell. decode P P.numeric_wire cell >>= λ t. traverse (λ n. decimal_units P n scale) t)
        (pos 0) (λ xs row. refl) (λ xs cell. bind_assoc (decode P P.numeric_wire cell) _ _) refl
        (IsNumeric P scale) xs from row (numeric-Returns P laws scale) le (rw len lt) st
  value-Carried bool (bools xs) n from row st len le lt =
      wire_carried bools ArrowToPg.bool PgToArrow.bool P.bool_wire false (λ xs row. refl)
        (λ xs cell. refl) (λ v. Unit) (λ v hv. laws.bool_lem v) xs from row le (rw len lt)
        (all_unit xs)
  value-Carried (range over {e} {d} reads)
        (structs valid (
          array_then lowers (
            array_then uppers (
              array_then
                (bools lower_incs)
                (array_then (bools upper_incs) (array_then (bools empties) no_arrays))))))
        n from row (small, lower_ok, upper_ok, rows) aligned le lt =
      range-Carried P appends carries over e d valid lowers uppers lower_incs upper_incs empties
        from row small le (rw (aligned.1.1.1.0) lt) (rw (aligned.1.1.1.1.0) lt)
        (rw (aligned.1.1.1.1.1.0) lt) (rows row (rw (aligned.0) lt))
        (value-Carried reads lowers n from row lower_ok (aligned.1.0) le lt)
        (value-Carried reads uppers n from row upper_ok (aligned.1.1.0) le lt)
  value-Carried _ a n from row st len le lt = absurd st
