-- ===== src/Postgres/Protocol.antt =====
-- What the crates under the Postgres connector provide: `postgres-types` and `postgres-protocol`
-- (values and ranges in binary form, quoting), `arrow` (builders and batches), `chrono`, `rust_decimal`, `uuid`, `pg_interval`, and
-- the data of them that the program takes apart. Their code is a parameter, `Protocol`.
use transferred.Prelude.{ℕ, List, Text, Bool, Option, Result}
use transferred.Prelude.Int.{ℤ}
use transferred.Prelude.Bytes.{Bytes}
use transferred.Core.Error.{AnyError}
use transferred.Core.Arrow.{ArrowType, ArrowField, Array, RecordBatch}

-- `tokio_postgres::types::Kind`, by the variant that the code asks for.
pub data Kind : Type 0 where
  enum_kind other_kind : Kind

-- `tokio_postgres::types::Type`: the built-in types that the code names, and any other by its
-- kind, its name and its OID.
pub data PgType : Type 0 where
  bool int2 int4 int8 float4 float8 text varchar bpchar name : PgType
  bytea date timestamp timestamptz interval uuid json jsonb numeric : PgType
  int4_range int8_range date_range ts_range tstz_range num_range : PgType
  other_pg : Kind → Text → ℕ → PgType

pub record PgColumn : Type 0 where
  pub column_name : Text
  pub type_modifier : ℤ
  pub column_type : PgType

-- An interval's microseconds are an `i64`.
pub record PgInterval : Type 0 where
  pub months : ℤ
  pub days : ℤ
  pub microseconds : ℤ

pub data IsNull : Type 0 where
  null not_null : IsNull

pub data RangeBound {ℓ} (A : Type ℓ) : Type ℓ where
  inclusive : A → RangeBound A
  exclusive : A → RangeBound A
  unbounded : RangeBound A

-- A value's bytes as Postgres sent them; `none` where it sent none (copy_out.rs, `Cell`).
abbrev pub Cell : Type 0
Cell = Option Bytes

-- A parsed range, each bound with the bytes of its value.
pub data Range : Type 0 where
  empty : Range
  nonempty : RangeBound Cell → RangeBound Cell → Range

-- `FromSql` and `ToSql` at one type; `to_sql` gives what it appends to its buffer.
pub record Wire (A : Type 0) : Type 0 where
  pub from_sql : Bytes → Result A AnyError
  pub to_sql : A → Result (IsNull × Bytes) AnyError

-- What writes one bound of a range onto a buffer.
abbrev pub BoundWriter : Type 0
BoundWriter = Bytes → Result (RangeBound IsNull × Bytes) AnyError

pub record Protocol : Type 1 where
  pub NaiveDate : Type 0
  pub NaiveDateTime : Type 0
  pub DateTime : Type 0
  pub Decimal : Type 0
  pub Uuid : Type 0
  pub bool_wire : Wire Bool
  pub int2_wire : Wire ℤ
  pub int4_wire : Wire ℤ
  pub int8_wire : Wire ℤ
  pub float4_wire : Wire ℕ
  pub float8_wire : Wire ℕ
  pub bytea_wire : Wire Bytes
  pub uuid_wire : Wire Uuid
  pub date_wire : Wire NaiveDate
  pub timestamp_wire : Wire NaiveDateTime
  pub timestamptz_wire : Wire DateTime
  pub interval_wire : Wire PgInterval
  pub numeric_wire : Wire Decimal
  pub from_naive_date : NaiveDate → ℤ
  pub to_naive_date_opt : ℤ → Option NaiveDate
  pub and_utc : NaiveDateTime → DateTime
  pub naive_utc : DateTime → NaiveDateTime
  pub timestamp_micros : DateTime → ℤ
  pub from_timestamp_micros : ℤ → Option DateTime
  pub uuid_from_slice : Bytes → Result Uuid AnyError
  pub into_bytes : Uuid → Bytes
  pub rescale : Decimal → ℕ → Decimal
  pub decimal_scale : Decimal → ℕ
  pub mantissa : Decimal → ℤ
  pub try_from_i128_with_scale : ℤ → ℕ → Result Decimal AnyError
  pub range_from_sql : Bytes → Result Range AnyError
  pub range_to_sql : BoundWriter → BoundWriter → Bytes → Result Bytes AnyError
  pub empty_range_to_sql : Bytes → Bytes
  pub escape_identifier : Text → Text
  pub make_builder : ArrowType → Array
  pub try_new_batch : List ArrowField → List Array → Result RecordBatch AnyError
