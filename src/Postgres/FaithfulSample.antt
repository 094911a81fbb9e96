-- ===== src/Postgres/FaithfulSample.antt =====
-- The small instance of `Protocol` writes and reads values as `IsFaithful` asks.
use transferred.Prelude.{
  ℕ, ◌<◌, ◌≡◌, refl, ap, ◌∙◌, [], ◌∷◌, ◌++◌, some, Bool, true, false, ok, arith,
}
use transferred.Prelude.Int.{ℤ, pos, negsuc, IsSigned}
use transferred.Prelude.Bytes.{be_i32, try_get_i32-be_i32}
use transferred.Postgres.Protocol.{PgInterval}
use transferred.Postgres.Values.{Sends, IsPgInterval, IsFaithful}
use transferred.Postgres.SampleWires.{
  int4_from_sql, int4_wire, int_wire, bool_wire, interval_wire, numeric_wire, signed_bytes,
  of_signed_bytes-signed_bytes, in_i64, decimal_of, float-Sends, first_int, with_days, with_months,
}
use transferred.Postgres.Samples.{plain}

int-Sends : (n : ℤ) → IsSigned 9223372036854775808 n → Sends int_wire n
int-Sends n h = (signed_bytes n, omega arith, refl, ap ok (of_signed_bytes-signed_bytes n h))

wider : (h : ℕ) (n : ℤ) → h < 9223372036854775808 → IsSigned h n → IsSigned 9223372036854775808 n
wider h (pos n) lt s = omega arith
wider h (negsuc n) lt s = omega arith

int4-Sends : (n : ℤ) → IsSigned 2147483648 n → Sends int4_wire n
unfolding int4_from_sql be_i32
int4-Sends n h = (be_i32 n, omega arith, refl, ap first_int (try_get_i32-be_i32 n [] h))

interval-Sends : (i : PgInterval) → IsPgInterval i → Sends interval_wire i
unfolding be_i32
interval-Sends i (months, days, micros) =
    let rest = signed_bytes i.microseconds in
    (
      be_i32 i.months ++ be_i32 i.days ++ rest,
      omega arith,
      refl,
      ap with_months (try_get_i32-be_i32 i.months (be_i32 i.days ++ rest) months)
          ∙ ap (with_days i.months) (try_get_i32-be_i32 i.days rest days)
          ∙ ap (λ m. ok (record { months = i.months; days = i.days; microseconds = m }))
              (of_signed_bytes-signed_bytes i.microseconds micros),
    )

in_i64-some : (n d : ℤ) → in_i64 n ≡ some d → (d ≡ n) × IsSigned 9223372036854775808 n
in_i64-some n d h = ground arith

decimal_of_ok :
    (units : ℤ) (scale : ℕ) (d : ℤ × ℕ)
    → decimal_of units scale ≡ ok d
    → (d ≡ (units, scale)) × IsSigned 9223372036854775808 units
decimal_of_ok units scale d h = ground arith

numeric-Sends :
    (units : ℤ) (scale : ℕ) → IsSigned 9223372036854775808 units → Sends numeric_wire (units, scale)
numeric-Sends units scale h = (
  scale ∷ signed_bytes units,
  omega arith,
  refl,
  ap (λ u. ok (u, scale)) (of_signed_bytes-signed_bytes units h),
)

bool-Sends : (v : Bool) → Sends bool_wire v
bool-Sends true = (1 ∷ [], omega arith, refl, refl)
bool-Sends false = (0 ∷ [], omega arith, refl, refl)

int64-Sends : (n d : ℤ) → in_i64 n ≡ some d → (d ≡ n) × Sends int_wire d
int64-Sends n d h = let (same, signed) = in_i64-some n d h in (same, rw same (int-Sends n signed))

pub plain-IsFaithful : IsFaithful plain
plain-IsFaithful = record {
  bool_lem = bool-Sends;
  int2_lem = λ n h. int-Sends n (wider 32768 n (omega arith) h);
  int4_lem = int4-Sends;
  int8_lem = int-Sends;
  float4_lem = λ v h. float-Sends v (omega arith);
  float8_lem = float-Sends;
  bytea_lem = λ v. refl;
  uuid_lem = λ v h. (v, refl, refl, (v, rw h (omega arith), refl, refl));
  date_lem = int64-Sends;
  timestamp_lem = λ n t h. let (same, sends) = int64-Sends n t h in (same, refl, sends, sends);
  interval_lem = interval-Sends;
  numeric_lem = λ units scale d h.
      let (same, signed) = decimal_of_ok units scale d h in
      (ap (λ x. x.1) same, ap (λ x. x.0) same, rw same (numeric-Sends units scale signed));
}
