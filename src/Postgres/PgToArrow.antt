-- ===== src/Postgres/PgToArrow.antt =====
-- crates/transferred-postgres/src/source/pg_to_arrow.rs: what Arrow column a Postgres column becomes,
-- and its values. The warnings that it logs are not modelled.

use Prim.Native.Nat.{bit_xor}
use transferred.Prelude.{
  ℕ, ◌+◌, ◌-◌, ◌/◌, ◌%◌, ◌^◌, Text, codes, eq_text, [], ◌∷◌, some, none, ok, err, map_err, Bool,
  true, false, ◌&&◌, leb, ltb, ◌>>=◌, if◌then◌else◌,
}
use transferred.Prelude.Int.{ℤ, pos, negsuc, eq_ℤ, sub_ℕ}
use transferred.Prelude.Bytes.{to_u32}
use transferred.Core.Error.{lit, int, Outcome, TransferredError, source_failed, arrow}
use transferred.Core.Arrow.{
  ArrowType, ArrowField, field, Extension, WkbType, microsecond, month_day_nano,
}
use transferred.Postgres.Constants.{uuid_bytes}
use transferred.Postgres.Protocol.{PgType, Kind, enum_kind, other_kind}
use transferred.Postgres.PgRange
use transferred.Postgres.Geoarrow
use transferred.Postgres.Geoarrow.{CrsMaker, planar, spherical, srid}

pub data Decoding : Type 0 where
  bool int2 int4 int8 float4 float8 text json jsonb bytea uuid : Decoding
  date timestamp timestamptz interval : Decoding
  numeric : ℕ → ℕ → Decoding
  geo : WkbType → Decoding
  range : Decoding → Decoding
  opaque : Text → Text → Decoding

abbrev pub utc : Text
utc = codes "UTC"

abbrev pub citext : Text
citext = codes "citext"

abbrev pub vendor : Text
vendor = codes "PostgreSQL"

abbrev pub decimal128_max_precision : ℕ
decimal128_max_precision = 38

-- `BARE_NUMERIC`
abbrev pub bare_numeric : Decoding
bare_numeric = numeric decimal128_max_precision 9

abbrev pub bare_numeric_typmod : ℤ
bare_numeric_typmod = negsuc 0

abbrev pub varhdrsz : ℕ
varhdrsz = 4

-- `typmod.wrapping_sub(VARHDRSZ)`, as a bit pattern.
unfoldable pub packed : ℤ → ℕ
packed typmod = (to_u32 typmod + 2 ^ 32 - varhdrsz) % 2 ^ 32

unfoldable pub packed_precision : ℤ → ℕ
unfolding packed
packed_precision typmod = packed typmod / 2 ^ 16 % 2 ^ 16

unfoldable pub packed_scale : ℤ → ℤ
unfolding packed
packed_scale typmod = sub_ℕ (bit_xor (packed typmod % 2 ^ 11) 0x400) 0x400

abbrev pub unsupported_numeric : ℕ → ℤ → TransferredError
unsupported_numeric precision scale = source_failed (
    lit "`numeric("
    ∷ int (pos precision)
    ∷ lit ","
    ∷ int scale
    ∷ lit ")` is not supported: it needs at most 38 digits and a scale from 0 to its precision"
    ∷ [])

unfoldable pub fitted : ℕ → ℤ → Outcome Decoding
fitted precision (negsuc n) = err (unsupported_numeric precision (negsuc n))
fitted precision (pos decimals) =
    if ltb precision 256
      && (ltb decimals 256 && (leb precision decimal128_max_precision && leb decimals precision))
    then ok (numeric precision decimals)
    else err (unsupported_numeric precision (pos decimals))

unfoldable pub declared_numeric : ℤ → Outcome Decoding
unfolding fitted
declared_numeric typmod = fitted (packed_precision typmod) (packed_scale typmod)

unfoldable pub numeric_of : ℤ → Outcome Decoding
unfolding declared_numeric
numeric_of typmod =
    if eq_ℤ typmod bare_numeric_typmod then ok bare_numeric else declared_numeric typmod

is_enum : Kind → Bool
is_enum enum_kind = true
is_enum other_kind = false

module _ (maker : CrsMaker) where
  -- `Decoding::extension`, over a type with no fixed OID.
  unfoldable pub by_name : Kind → Text → ℤ → Decoding
  unfolding is_enum
  by_name kind type_name typmod =
      if is_enum kind
      then text
      else if eq_text type_name citext
      then text
      else if eq_text type_name Geoarrow.geometry
      then geo (planar maker (srid typmod))
      else if eq_text type_name Geoarrow.geography
      then geo (spherical maker (srid typmod))
      else opaque type_name vendor

  -- `Decoding::new`, by the column's type and its type modifier.
  unfoldable pub decoding_of : PgType → ℤ → Outcome Decoding
  unfolding by_name
  decoding_of PgType.bool typmod = ok bool
  decoding_of PgType.int2 typmod = ok int2
  decoding_of PgType.int4 typmod = ok int4
  decoding_of PgType.int8 typmod = ok int8
  decoding_of PgType.float4 typmod = ok float4
  decoding_of PgType.float8 typmod = ok float8
  decoding_of PgType.text typmod = ok text
  decoding_of PgType.varchar typmod = ok text
  decoding_of PgType.bpchar typmod = ok text
  decoding_of PgType.name typmod = ok text
  decoding_of PgType.bytea typmod = ok bytea
  decoding_of PgType.date typmod = ok date
  decoding_of PgType.timestamp typmod = ok timestamp
  decoding_of PgType.timestamptz typmod = ok timestamptz
  decoding_of PgType.interval typmod = ok interval
  decoding_of PgType.uuid typmod = ok uuid
  decoding_of PgType.json typmod = ok json
  decoding_of PgType.jsonb typmod = ok jsonb
  decoding_of PgType.numeric typmod = numeric_of typmod
  decoding_of PgType.int4_range typmod = ok (range int4)
  decoding_of PgType.int8_range typmod = ok (range int8)
  decoding_of PgType.date_range typmod = ok (range date)
  decoding_of PgType.ts_range typmod = ok (range timestamp)
  decoding_of PgType.tstz_range typmod = ok (range timestamptz)
  decoding_of PgType.num_range typmod = do
    bounds ← numeric_of bare_numeric_typmod
    ok (range bounds)
  decoding_of (PgType.other_pg kind type_name oid) typmod = ok (by_name kind type_name typmod)

-- `u8` to `i8`.
cast_signed : ℕ → ℤ
cast_signed n = if ltb n 128 then pos n else negsuc (255 - n)

unfoldable pub arrow_type : Decoding → ArrowType
unfolding cast_signed
arrow_type bool = ArrowType.boolean
arrow_type int2 = ArrowType.int16
arrow_type int4 = ArrowType.int32
arrow_type int8 = ArrowType.int64
arrow_type float4 = ArrowType.float32
arrow_type float8 = ArrowType.float64
arrow_type text = ArrowType.utf8
arrow_type json = ArrowType.utf8
arrow_type jsonb = ArrowType.utf8
arrow_type bytea = ArrowType.binary
arrow_type (geo tag) = ArrowType.binary
arrow_type (opaque name vendor_name) = ArrowType.binary
arrow_type uuid = ArrowType.fixed_size_binary uuid_bytes
arrow_type date = ArrowType.date32
arrow_type timestamp = ArrowType.timestamp microsecond none
arrow_type timestamptz = ArrowType.timestamp microsecond (some utc)
arrow_type interval = ArrowType.interval month_day_nano
arrow_type (numeric precision scale) = ArrowType.decimal128 precision (cast_signed scale)
arrow_type (range bounds) = ArrowType.struct (PgRange.fields (arrow_type bounds))

-- The extension tag of the column's field. `try_with_extension_type` checks the tag against the
-- field's data type, which of the tags here only `PgRange` does by code of this repository.
unfoldable pub field_of : Decoding → Text → Outcome ArrowField
field_of uuid name = ok (field name (arrow_type uuid) true (some Extension.uuid))
field_of json name = ok (field name (arrow_type json) true (some Extension.json))
field_of jsonb name = ok (field name (arrow_type jsonb) true (some Extension.json))
field_of (geo tag) name = ok (field name (arrow_type (geo tag)) true (some (Extension.wkb tag)))
field_of (opaque type_name by) name =
    ok (field name (arrow_type (opaque type_name by)) true (some (Extension.opaque type_name by)))
field_of (range bounds) name = do
  _ ← map_err arrow (PgRange.supports_data_type (arrow_type (range bounds)))
  ok (field name (arrow_type (range bounds)) true (some Extension.pg_range))
field_of other name = ok (field name (arrow_type other) true none)
