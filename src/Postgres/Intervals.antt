-- ===== src/Postgres/Intervals.antt =====
-- Intervals in nanoseconds and in microseconds, for `month_day_nano` and `pg_interval`.
use transferred.Prelude.{◌+◌, ◌%◌, ◌≡◌, ok, arith, Bool, err, if◌then◌else◌, ◌>>=◌, leb, ◌==◌}
use transferred.Prelude.Int.{ℤ, pos, negsuc, IsSigned}
use transferred.Core.Arrow.{MonthDayNano}
use transferred.Postgres.Protocol.{PgInterval}
use transferred.Postgres.Append.{month_day_nano, interval_too_long}
use transferred.Postgres.Write.{pg_interval, too_fine}

-- The microsecond counts whose nanoseconds an `i64` holds.
abbrev pub fits_nanos : ℤ → Bool
fits_nanos (pos n) = leb n 9223372036854775
fits_nanos (negsuc n) = leb (n + 1) 9223372036854775

-- The integers that a factor of 1000 divides.
abbrev pub is_whole : ℤ → Bool
is_whole (pos n) = n % 1000 == 0
is_whole (negsuc n) = (n + 1) % 1000 == 0

-- An interval that Postgres stores survives the way to Arrow and back; only one whose nanoseconds
-- an i64 cannot hold is refused, on the way out.
pub pg_interval-month_day_nano :
    (i : PgInterval)
    → (month_day_nano i >>= pg_interval)
      ≡ (if fits_nanos i.microseconds then ok i else err interval_too_long)
unfolding month_day_nano pg_interval
pg_interval-month_day_nano i = ground arith

-- An Arrow interval whose nanoseconds are an i64 survives the way to Postgres and back if they are
-- whole microseconds, and is refused if not.
pub month_day_nano-pg_interval :
    (n : MonthDayNano)
    → IsSigned 9223372036854775808 n.nanoseconds
    → (pg_interval n >>= month_day_nano)
      ≡ (if is_whole n.nanoseconds then ok n else err (too_fine n.nanoseconds))
unfolding month_day_nano pg_interval
month_day_nano-pg_interval n bounded = ground arith
