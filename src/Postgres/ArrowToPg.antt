-- ===== src/Postgres/ArrowToPg.antt =====
-- crates/transferred-postgres/src/destination/arrow_to_pg.rs: what Postgres column an Arrow field
-- becomes.
use transferred.Prelude.{
  ℕ, ◌++◌, Text, codes, [], ◌∷◌, Option, some, none, ok, err, map_err, ◌>>=◌, if◌then◌else◌,
}
use transferred.Prelude.Int.{ℤ, pos, negsuc, eq_ℤ}
use transferred.Prelude.Decimal.{display_nat, display_int}
use transferred.Core.Error.{
  lit, foreign, text as text_piece, Outcome, TransferredError, in_destination, destination_failed,
}
use transferred.Core.Arrow.{ArrowType, Extension, WkbType, microsecond, month_day_nano}
use transferred.Postgres.Constants.{uuid_bytes}
use transferred.Postgres.Protocol.{PgType}
use transferred.Postgres.PgRange
use transferred.Postgres.Geoarrow
use transferred.Postgres.Geoarrow.{is_spherical, epsg}

pub data Encoding : Type 0 where
  bool int2 int4 int8 float4 float8 text json bytea uuid : Encoding
  date timestamp timestamptz interval : Encoding
  numeric : ℕ → ℕ → Encoding
  geo : WkbType → Encoding
  range : PgType → Encoding → Encoding

-- `Type::name`, as the tests of arrow_to_pg.rs pin it for every type that an encoding writes.
abbrev pub pg_name : PgType → Text
pg_name PgType.bool = codes "bool"
pg_name PgType.int2 = codes "int2"
pg_name PgType.int4 = codes "int4"
pg_name PgType.int8 = codes "int8"
pg_name PgType.float4 = codes "float4"
pg_name PgType.float8 = codes "float8"
pg_name PgType.text = codes "text"
pg_name PgType.varchar = codes "varchar"
pg_name PgType.bpchar = codes "bpchar"
pg_name PgType.name = codes "name"
pg_name PgType.bytea = codes "bytea"
pg_name PgType.date = codes "date"
pg_name PgType.timestamp = codes "timestamp"
pg_name PgType.timestamptz = codes "timestamptz"
pg_name PgType.interval = codes "interval"
pg_name PgType.uuid = codes "uuid"
pg_name PgType.json = codes "json"
pg_name PgType.jsonb = codes "jsonb"
pg_name PgType.numeric = codes "numeric"
pg_name PgType.int4_range = codes "int4range"
pg_name PgType.int8_range = codes "int8range"
pg_name PgType.date_range = codes "daterange"
pg_name PgType.ts_range = codes "tsrange"
pg_name PgType.tstz_range = codes "tstzrange"
pg_name PgType.num_range = codes "numrange"
pg_name (PgType.other_pg kind name oid) = name

unfoldable pub pg_type : Encoding → PgType
pg_type bool = PgType.bool
pg_type int2 = PgType.int2
pg_type int4 = PgType.int4
pg_type int8 = PgType.int8
pg_type float4 = PgType.float4
pg_type float8 = PgType.float8
pg_type text = PgType.text
pg_type json = PgType.json
pg_type bytea = PgType.bytea
pg_type (geo tag) = PgType.bytea
pg_type uuid = PgType.uuid
pg_type date = PgType.date
pg_type timestamp = PgType.timestamp
pg_type timestamptz = PgType.timestamptz
pg_type interval = PgType.interval
pg_type (numeric precision scale) = PgType.numeric
pg_type (range over element) = over

unfoldable pub constrained : Text → Option ℤ → Text
constrained name none = name
constrained name (some code) = name ++ (codes "(Geometry," ++ (display_int code ++ codes ")"))

unfoldable pub geo_sql_type : WkbType → Text
unfolding constrained
geo_sql_type tag =
    constrained (if is_spherical tag then Geoarrow.geography else Geoarrow.geometry) (epsg tag)

unfoldable pub sql_type : Encoding → Text
unfolding pg_type geo_sql_type
sql_type (numeric precision scale) =
    codes "numeric(" ++ (display_nat precision ++ (codes "," ++ (display_nat scale ++ codes ")")))
sql_type (geo tag) = geo_sql_type tag
sql_type other = pg_name (pg_type other)

no_range_over : Encoding → TransferredError
unfolding sql_type
no_range_over other =
    destination_failed
      (lit "Postgres has no built-in range over `" ∷ text_piece (sql_type other) ∷ lit "`" ∷ [])

unfoldable pub range_type : Encoding → Outcome PgType
unfolding no_range_over
range_type int4 = ok PgType.int4_range
range_type int8 = ok PgType.int8_range
range_type (numeric precision scale) = ok PgType.num_range
range_type date = ok PgType.date_range
range_type timestamp = ok PgType.ts_range
range_type timestamptz = ok PgType.tstz_range
range_type other = err (no_range_over other)

-- `Encoding::numeric`
unfoldable pub numeric_from : ℕ → ℤ → Outcome Encoding
numeric_from precision (pos scale) = ok (numeric precision scale)
numeric_from precision (negsuc n) =
    err (destination_failed (lit "`Decimal128` with negative scale is not supported" ∷ []))

unsupported : TransferredError
unsupported = destination_failed (
    lit "Arrow type `"
    ∷ foreign "the Arrow type"
    ∷ lit "` is not supported by the Postgres destination in 0.1"
    ∷ [])

unfoldable pub plain : ArrowType → Outcome Encoding
unfolding numeric_from unsupported
plain ArrowType.boolean = ok bool
plain ArrowType.int16 = ok int2
plain ArrowType.int32 = ok int4
plain ArrowType.int64 = ok int8
plain ArrowType.float32 = ok float4
plain ArrowType.float64 = ok float8
plain ArrowType.utf8 = ok text
plain ArrowType.binary = ok bytea
plain ArrowType.date32 = ok date
plain (ArrowType.timestamp microsecond none) = ok timestamp
plain (ArrowType.timestamp microsecond (some zone)) = ok timestamptz
plain (ArrowType.interval month_day_nano) = ok interval
plain (ArrowType.decimal128 precision scale) = numeric_from precision scale
plain other = err unsupported

-- `Encoding::range`
unfoldable pub range_from : ArrowType → Outcome Encoding
unfolding plain range_type
range_from t = do
  bounds_type ← map_err in_destination (PgRange.type_of t)
  element ← plain bounds_type
  over ← range_type element
  ok (range over element)

-- `Encoding::new`: the extension tag decides where the data type is the one it tags.
unfoldable pub encoding_of : ArrowType → Option Extension → Outcome Encoding
unfolding plain range_from
encoding_of ArrowType.utf8 (some Extension.json) = ok json
encoding_of ArrowType.binary (some (Extension.wkb tag)) = ok (geo tag)
encoding_of ArrowType.binary (some (Extension.malformed cause)) = err (in_destination cause)
encoding_of (ArrowType.fixed_size_binary n) (some Extension.uuid) =
    if eq_ℤ n uuid_bytes then ok uuid else plain (ArrowType.fixed_size_binary n)
encoding_of (ArrowType.struct fields) (some Extension.pg_range) =
    range_from (ArrowType.struct fields)
encoding_of t tag = plain t
