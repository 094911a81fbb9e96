-- ===== src/Postgres/SampleWires.antt =====
-- Wires of a small instance of `Protocol`, for the examples: numbers as base 256 digits.
use transferred.Prelude.{
  ℕ, zero, suc, ◌+◌, ◌*◌, ◌/◌, ◌%◌, ◌<◌, ◌≡◌, refl, ap, ◌∙◌, [], ◌∷◌, ◌++◌, some, none, Bool, not,
  Option, Result, ok, err, arith, length, ◌==◌, if◌then◌else◌, ltb, ◌&&◌,
}
use transferred.Prelude.Int.{ℤ, pos, negsuc, IsSigned, is_signed}
use transferred.Prelude.Bytes.{Bytes, be_i32, try_get_i32}
use transferred.Core.Error.{AnyError, root, lit}
use transferred.Postgres.Protocol.{Wire, PgInterval, not_null}
use transferred.Postgres.Values.{Sends}

abbrev pub broken : AnyError
broken = root (lit "broken" ∷ [])

abbrev pub first_int : Option (ℤ × Bytes) → Result ℤ AnyError
first_int none = err broken
first_int (some (n, rest)) = ok n

unfoldable pub int4_from_sql : Bytes → Result ℤ AnyError
int4_from_sql bytes = first_int (try_get_i32 bytes)

abbrev pub int4_wire : Wire ℤ
int4_wire = record { from_sql = int4_from_sql; to_sql = λ n. ok (not_null, be_i32 n) }

-- So many digits, the lowest first.
abbrev digits : ℕ → ℕ → Bytes
digits zero n = []
digits (suc k) n = (n % 256) ∷ digits k (n / 256)

abbrev of_digits : Bytes → ℕ
of_digits [] = 0
of_digits (b ∷ bytes) = b + 256 * of_digits bytes

abbrev below : ℕ → ℕ
below zero = 1
below (suc k) = 256 * below k

of_digits-digits : (k n : ℕ) → n < below k → of_digits (digits k n) ≡ n
of_digits-digits zero n h = omega arith
of_digits-digits (suc k) n h =
    let higher = of_digits-digits k (n / 256) (omega arith) in omega arith

length-digits : (k n : ℕ) → length (digits k n) ≡ k
length-digits zero n = refl
length-digits (suc k) n = ap suc (length-digits k (n / 256))

-- A signed number as a natural one: the sign is the lowest bit.
abbrev zigzag : ℤ → ℕ
zigzag (pos n) = 2 * n
zigzag (negsuc n) = 2 * n + 1

abbrev of_zigzag : ℕ → ℤ
of_zigzag u = if u % 2 == 0 then pos (u / 2) else negsuc (u / 2)

of_zigzag-zigzag : (n : ℤ) → of_zigzag (zigzag n) ≡ n
of_zigzag-zigzag (pos n) = ground arith
of_zigzag-zigzag (negsuc n) = ground arith

abbrev pub signed_bytes : ℤ → Bytes
signed_bytes n = digits 9 (zigzag n)

abbrev pub of_signed_bytes : Bytes → ℤ
of_signed_bytes bytes = of_zigzag (of_digits bytes)

zigzag-below : (n : ℤ) → IsSigned 9223372036854775808 n → zigzag n < below 9
zigzag-below (pos n) h = omega arith
zigzag-below (negsuc n) h = omega arith

pub of_signed_bytes-signed_bytes :
    (n : ℤ) → IsSigned 9223372036854775808 n → of_signed_bytes (signed_bytes n) ≡ n
of_signed_bytes-signed_bytes n h =
    ap of_zigzag (of_digits-digits 9 (zigzag n) (zigzag-below n h)) ∙ of_zigzag-zigzag n

abbrev pub int_wire : Wire ℤ
int_wire = record {
  from_sql = λ bytes. ok (of_signed_bytes bytes);
  to_sql = λ n. ok (not_null, signed_bytes n);
}

abbrev pub float_wire : Wire ℕ
float_wire = record {
  from_sql = λ bytes. ok (of_digits bytes);
  to_sql = λ v. ok (not_null, digits 8 v);
}

abbrev pub bool_wire : Wire Bool
bool_wire = record {
  from_sql = λ bytes. ok (not (of_digits bytes == 0));
  to_sql = λ v. ok (not_null, (if v then 1 else 0) ∷ []);
}

abbrev pub bytes_wire : Wire Bytes
bytes_wire = record { from_sql = λ bytes. ok bytes; to_sql = λ v. ok (not_null, v) }

abbrev pub with_days : ℤ → Option (ℤ × Bytes) → Result PgInterval AnyError
with_days months none = err broken
with_days months (some (days, rest)) =
    ok (record { months = months; days = days; microseconds = of_signed_bytes rest })

abbrev pub with_months : Option (ℤ × Bytes) → Result PgInterval AnyError
with_months none = err broken
with_months (some (months, rest)) = with_days months (try_get_i32 rest)

abbrev interval_from_sql : Bytes → Result PgInterval AnyError
interval_from_sql bytes = with_months (try_get_i32 bytes)

abbrev pub interval_wire : Wire PgInterval
interval_wire = record {
  from_sql = interval_from_sql;
  to_sql = λ i. ok (not_null, be_i32 i.months ++ be_i32 i.days ++ signed_bytes i.microseconds);
}

-- The units and the scale of a decimal.
abbrev numeric_from_sql : Bytes → Result (ℤ × ℕ) AnyError
numeric_from_sql [] = err broken
numeric_from_sql (scale ∷ units) = ok (of_signed_bytes units, scale)

abbrev pub numeric_wire : Wire (ℤ × ℕ)
numeric_wire = record {
  from_sql = numeric_from_sql;
  to_sql = λ d. ok (not_null, d.1 ∷ signed_bytes d.0);
}

-- The numbers of an `i64`, which are those that the instance's dates and times have.
abbrev pub in_i64 : ℤ → Option ℤ
in_i64 n = if is_signed 9223372036854775808 n then some n else none

abbrev pub decimal_of : ℤ → ℕ → Result (ℤ × ℕ) AnyError
decimal_of units scale =
    if is_signed 9223372036854775808 units && ltb scale 256 then ok (units, scale) else err broken

pub float-Sends : (v : ℕ) → v < 18446744073709551616 → Sends float_wire v
float-Sends v h = (digits 8 v, omega arith, refl, ap ok (of_digits-digits 8 v (omega arith)))
