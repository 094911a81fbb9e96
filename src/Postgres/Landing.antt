-- ===== src/Postgres/Landing.antt =====
-- What a column of the source is declared as by the destination, for Decoding and Encoding.
use transferred.Prelude.{
  ◌++◌, codes, Option, ℕ, ◌<◌, ◌≡◌, refl, Text, eq_text, some, none, ok, arith, if◌then◌else◌, true,
  Bool-cases, inl, inr,
}
use transferred.Prelude.Int.{ℤ, eq_ℤ}
use transferred.Core.Arrow.{ArrowField, ArrowType, data_type, extension, field, Extension, WkbType}
use transferred.Postgres.Protocol.{PgType, Kind, enum_kind, other_kind}
use transferred.Postgres.PgRange.{supports_data_type}
use transferred.Postgres.RangeShape.{type_of-fields}
use transferred.Postgres.Geoarrow
use transferred.Postgres.Geoarrow.{CrsMaker, planar, spherical, srid, epsg, is_spherical}
use transferred.Postgres.PgToArrow.{
  Decoding, numeric, geo, range, by_name, field_of, arrow_type, citext, vendor, packed_precision,
  packed_scale, bare_numeric_typmod,
}
use transferred.Postgres.ArrowToPg.{
  Encoding, encoding_of, pg_type, pg_name, sql_type, geo_sql_type, constrained,
}
use transferred.Postgres.GeoTags.{IsCrsMaker, epsg-srid}
use transferred.Prelude.Decimal.{display_nat, display_int}

-- `name(Geometry,4326)` of a pinned column, and the bare name of another.
abbrev pub pinned_to : Text → Option ℤ → Text
pinned_to name none = name
pinned_to name (some code) = name ++ (codes "(Geometry," ++ (display_int code ++ codes ")"))

-- `numeric(38,9)` of a column that declares nothing, and what its typmod packs of another.
abbrev pub numeric_text : ℤ → Text
numeric_text typmod =
    if eq_ℤ typmod bare_numeric_typmod
    then codes "numeric(38,9)"
    else codes "numeric("
      ++ (display_nat (packed_precision typmod)
          ++ (codes "," ++ (display_int (packed_scale typmod) ++ codes ")")))

-- The type that the destination declares for a column of a Postgres type, as SQL.
abbrev pub landed : PgType → ℤ → Text
landed PgType.bool typmod = codes "bool"
landed PgType.int2 typmod = codes "int2"
landed PgType.int4 typmod = codes "int4"
landed PgType.int8 typmod = codes "int8"
landed PgType.float4 typmod = codes "float4"
landed PgType.float8 typmod = codes "float8"
landed PgType.text typmod = codes "text"
landed PgType.varchar typmod = codes "text"
landed PgType.bpchar typmod = codes "text"
landed PgType.name typmod = codes "text"
landed PgType.bytea typmod = codes "bytea"
landed PgType.date typmod = codes "date"
landed PgType.timestamp typmod = codes "timestamp"
landed PgType.timestamptz typmod = codes "timestamptz"
landed PgType.interval typmod = codes "interval"
landed PgType.uuid typmod = codes "uuid"
landed PgType.json typmod = codes "json"
landed PgType.jsonb typmod = codes "json"
landed PgType.numeric typmod = numeric_text typmod
landed PgType.int4_range typmod = codes "int4range"
landed PgType.int8_range typmod = codes "int8range"
landed PgType.date_range typmod = codes "daterange"
landed PgType.ts_range typmod = codes "tsrange"
landed PgType.tstz_range typmod = codes "tstzrange"
landed PgType.num_range typmod = codes "numrange"
landed (PgType.other_pg enum_kind name oid) typmod = codes "text"
landed (PgType.other_pg other_kind name oid) typmod =
    if eq_text name (codes "citext")
    then codes "text"
    else if eq_text name (codes "geometry")
    then pinned_to (codes "geometry") (srid typmod)
    else if eq_text name (codes "geography")
    then pinned_to (codes "geography") (srid typmod)
    else codes "bytea"

-- A column lands as `t`: its field is built, the field is taken, and its column is declared as `t`.
abbrev pub Lands : Decoding → Text → Text → Type 0
Lands d name t =
    (f : ArrowField) × (field_of d name ≡ ok f)
    × (e : Encoding) × (encoding_of (data_type f) (extension f) ≡ ok e)
    × (sql_type e ≡ t)

pub numeric-Lands :
    (p s : ℕ) (name : Text)
    → s < 128
    → Lands
        (numeric p s)
        name
        (codes "numeric(" ++ (display_nat p ++ (codes "," ++ (display_nat s ++ codes ")"))))
unfolding field_of arrow_type encoding_of sql_type
numeric-Lands p s name h = (
  field name (arrow_type (numeric p s)) true none,
  refl,
  Encoding.numeric p s,
  ground arith,
  refl,
)

-- A range over an element that is itself taken.
pub range-Lands :
    (d : Decoding) (name : Text) (t : PgType) (element : Encoding)
    → encoding_of (arrow_type (range d)) (some Extension.pg_range) ≡ ok (Encoding.range t element)
    → Lands (range d) name (pg_name t)
unfolding field_of arrow_type supports_data_type sql_type pg_type
range-Lands d name t element h = (
  field name (arrow_type (range d)) true (some Extension.pg_range),
  rw (type_of-fields (arrow_type d)),
  Encoding.range t element,
  h,
  refl,
)

pub bare_range-Lands : (name : Text) → Lands (range (numeric 38 9)) name (codes "numrange")
bare_range-Lands name =
    range-Lands (numeric 38 9) name PgType.num_range (Encoding.numeric 38 9)
      (unfold encoding_of arrow_type in rw (type_of-fields (arrow_type (numeric 38 9))))

geo-Lands :
    (tag : WkbType) (name : Text)
    → Lands
        (geo tag)
        name
        (pinned_to (if is_spherical tag then codes "geography" else codes "geometry") (epsg tag))
unfolding field_of arrow_type encoding_of sql_type geo_sql_type constrained
geo-Lands tag name = (
  field name ArrowType.binary true (some (Extension.wkb tag)),
  refl,
  Encoding.geo tag,
  refl,
  pinned (if is_spherical tag then codes "geography" else codes "geometry") (epsg tag),
)
  where
    pinned : (kind : Text) (code : Option ℤ) → constrained kind code ≡ pinned_to kind code
    pinned kind none = refl
    pinned kind (some code) = refl

pub by_name-Lands :
    (maker : CrsMaker)
    → IsCrsMaker maker
    → (kind : Kind) (type_name : Text) (typmod : ℤ) (oid : ℕ) (name : Text)
    → Lands
        (by_name maker kind type_name typmod)
        name
        (landed (PgType.other_pg kind type_name oid) typmod)
unfolding by_name field_of arrow_type encoding_of sql_type pg_type
by_name-Lands maker laws enum_kind type_name typmod oid name =
    (field name ArrowType.utf8 true none, refl, Encoding.text, refl, refl)
by_name-Lands maker laws other_kind type_name typmod oid name =
    let (planar_code, spherical_code, flat, round) = epsg-srid maker laws typmod in
    elim (Bool-cases (eq_text type_name citext)) [
      | inl e ↦ rw e (field name ArrowType.utf8 true none, refl, Encoding.text, refl, refl)
      | inr e ↦ rw e (elim (Bool-cases (eq_text type_name Geoarrow.geometry)) [
        | inl g ↦ rw g (rw (flat, planar_code) at (geo-Lands (planar maker (srid typmod)) name))
        | inr g ↦ rw g (elim (Bool-cases (eq_text type_name Geoarrow.geography)) [
          | inl s ↦
              rw s (rw (round, spherical_code) at (geo-Lands (spherical maker (srid typmod)) name))
          | inr s ↦ rw s (
            field name ArrowType.binary true (some (Extension.opaque type_name vendor)),
            refl,
            Encoding.bytea,
            refl,
            refl,
          )
        ])
      ])
    ]
