-- ===== src/Postgres/ValueReturns.antt =====
-- A value that is written is read back, for each type of values: `Encoding::write` in
-- destination/arrow_to_pg.rs against `Decoding::append` in source/pg_to_arrow.rs.
use transferred.Prelude.{ℕ, ◌≡◌, refl, ◌∙◌, [], ok, ◌>>=◌, arith, length, traverse, Text, >>=-eq-ok}
use transferred.Prelude.Int.{ℤ, IsSigned}
use transferred.Prelude.Bytes.{Bytes}
use transferred.Core.Arrow.{MonthDayNano}
use transferred.Postgres.Protocol.{Protocol, Wire, PgInterval, not_null}
use transferred.Postgres.Append.{
  decode, utf8, fixed_16, days, utc_micros, micros, decimal_units, month_day_nano,
}
use transferred.Postgres.Write.{
  whole_micros, put, pg_uuid, pg_date, pg_timestamp, pg_interval, pg_numeric,
}
use transferred.Postgres.Intervals.{month_day_nano-pg_interval}
use transferred.Postgres.Values.{
  IsPgInterval, Sends, IsFaithful, IsText, IsShortBytes, IsDate, IsTimestamp, IsNumeric,
  IsStoredInterval,
}
use transferred.Postgres.Slots.{Returns}

module _ (P : Protocol) (laws : IsFaithful P) where
  pub put-decode :
      {A : Type 0} (wire : Wire A) (v : A)
      → Sends wire v
      → Returns 65536 (λ x. put P wire x []) (decode P wire) v
  unfolding put decode
  put-decode wire v (bytes, short, sent, read) = (bytes, short, rw sent refl, rw read refl)

  pub text-Returns :
      (v : Text)
      → IsText v
      → Returns 2147483648 (λ s. ok (not_null, s)) (λ cell. traverse utf8 cell) v
  unfolding utf8
  text-Returns v (valid, short) = (v, short, refl, rw valid refl)

  pub bytes-Returns :
      (v : Bytes)
      → IsShortBytes v
      → Returns 2147483648 (λ x. put P P.bytea_wire x []) (λ cell. ok cell) v
  unfolding put
  bytes-Returns v short = (v, short, rw (laws.bytea_lem v) refl, refl)

  pub uuid-Returns :
      (v : Bytes)
      → length v ≡ 16
      → Returns 65536
          (λ x. pg_uuid P x >>= λ u. put P P.uuid_wire u [])
          (λ cell. decode P P.uuid_wire cell >>= λ u. ok (fixed_16 P u))
          v
  unfolding put decode pg_uuid fixed_16
  uuid-Returns v h =
      let (u, made, back, (bytes, short, sent, read)) = laws.uuid_lem v h in
      (bytes, short, rw (made, sent) refl, rw (read, back) refl)

  pub date-Returns :
      (v : ℤ)
      → IsDate P v
      → Returns 65536
          (λ x. pg_date P x >>= λ d. put P P.date_wire d [])
          (λ cell. decode P P.date_wire cell >>= λ d. ok (days P d))
          v
  unfolding put decode pg_date days
  date-Returns v (d, made) =
      let (back, (bytes, short, sent, read)) = laws.date_lem v d made in
      (bytes, short, rw (made, sent) refl, rw (read, back) refl)

  pub timestamp-Returns :
      (v : ℤ)
      → IsTimestamp P v
      → Returns 65536
          (λ x. pg_timestamp P x >>= λ t. put P P.timestamp_wire (P.naive_utc t) [])
          (λ cell. decode P P.timestamp_wire cell >>= λ t. ok (utc_micros P t))
          v
  unfolding put decode pg_timestamp utc_micros
  timestamp-Returns v (t, made) =
      let (back, utc, (bytes, short, sent, read), _) = laws.timestamp_lem v t made in
      (bytes, short, rw (made, sent) refl, rw (read, utc, back) refl)

  pub timestamptz-Returns :
      (v : ℤ)
      → IsTimestamp P v
      → Returns 65536
          (λ x. pg_timestamp P x >>= λ t. put P P.timestamptz_wire t [])
          (λ cell. decode P P.timestamptz_wire cell >>= λ t. ok (micros P t))
          v
  unfolding put decode pg_timestamp micros
  timestamptz-Returns v (t, made) =
      let (back, utc, _, (bytes, short, sent, read)) = laws.timestamp_lem v t made in
      (bytes, short, rw (made, sent) refl, rw (read, back) refl)

  units_back :
      (scale : ℕ) (v : ℤ) (d : P.Decimal)
      → P.decimal_scale (P.rescale d scale) ≡ scale
      → P.mantissa (P.rescale d scale) ≡ v
      → decimal_units P d scale ≡ ok v
  unfolding decimal_units
  units_back scale v d same units = ground arith

  pub numeric-Returns :
      (scale : ℕ) (v : ℤ)
      → IsNumeric P scale v
      → Returns 65536
          (λ x. pg_numeric P x scale >>= λ d. put P P.numeric_wire d [])
          (λ cell. decode P P.numeric_wire cell >>= λ d. traverse (λ n. decimal_units P n scale) d)
          v
  unfolding put decode pg_numeric decimal_units
  numeric-Returns scale v (d, made) =
      let (same, units, (bytes, short, sent, read)) = laws.numeric_lem v scale d made in
      (bytes, short, rw (made, sent) refl, rw read (rw (units_back scale v d same units) refl))

  interval_bounds :
      (v : MonthDayNano) (i : PgInterval)
      → IsSigned 2147483648 v.months
      → IsSigned 2147483648 v.days
      → IsSigned 9223372036854775808 v.nanoseconds
      → pg_interval v ≡ ok i
      → IsPgInterval i
  unfolding pg_interval whole_micros
  interval_bounds v i months days nanos h = ground arith

  pub interval-Returns :
      (v : MonthDayNano)
      → IsStoredInterval v
      → Returns 65536
          (λ x. pg_interval x >>= λ i. put P P.interval_wire i [])
          (λ cell. decode P P.interval_wire cell >>= λ i. traverse month_day_nano i)
          v
  unfolding put decode
  interval-Returns v (months, days, nanos, whole) =
      let through : (pg_interval v >>= month_day_nano) ≡ ok v =
        month_day_nano-pg_interval v nanos ∙ rw whole in
      let (i, made, back) = >>=-eq-ok (pg_interval v) month_day_nano through in
      let (bytes, short, sent, read) =
        laws.interval_lem i (interval_bounds v i months days nanos made) in
      (bytes, short, rw (made, sent) refl, rw read (rw back refl))
