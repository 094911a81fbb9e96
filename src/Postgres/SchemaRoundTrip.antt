-- ===== src/Postgres/SchemaRoundTrip.antt =====
-- A table's columns through Arrow and back, for `Decoding` and `Encoding`.
use transferred.Prelude.{
  ℕ, ◌<◌, ◌≡◌, refl, ap, sym, Text, some, none, ok, arith, true, Bool-cases, inl, inr,
}
use mathlib.Core.Path.{subst}
use transferred.Prelude.Int.{ℤ, pos, negsuc, eq_ℤ}
use transferred.Core.Error.{Outcome}
use transferred.Core.Arrow.{field, Extension}
use transferred.Postgres.Protocol.{PgType}
use transferred.Postgres.RangeShape.{type_of-fields}
use transferred.Postgres.Geoarrow.{CrsMaker}
use transferred.Postgres.PgToArrow.{
  Decoding, bool, int2, int4, int8, float4, float8, text, json, jsonb, bytea, uuid, date, timestamp,
  timestamptz, interval, numeric, decoding_of, field_of, arrow_type, numeric_of, fitted,
  packed_precision, packed_scale, bare_numeric_typmod,
}
use transferred.Postgres.ArrowToPg.{Encoding, encoding_of, pg_type, sql_type}
use transferred.Postgres.GeoTags.{IsCrsMaker}
use transferred.Prelude.Decimal.{display_nat, display_int}
use transferred.Postgres.Landing.{
  Lands, landed, numeric_text, numeric-Lands, range-Lands, bare_range-Lands, by_name-Lands,
}

-- A `numeric` that is taken fits `Decimal128`.
fitted_bounds :
    (p : ℕ) (scale : ℤ) (d : Decoding)
    → fitted p scale ≡ ok d
    → (s : ℕ) × (scale ≡ pos s) × (d ≡ numeric p s) × (s < 128)
unfolding fitted
fitted_bounds p (pos s) d h = (s, refl, ground arith, ground arith)
fitted_bounds p (negsuc n) d h = absurd (cc h)

at :
    {d c : Decoding} (name : Text) (t : Text)
    → Lands c name t
    → ◌≡◌ {A = Outcome Decoding} (ok c) (ok d)
    → Lands d name t
at {d} {c} name t l e = let same : c ≡ d = cc e in subst (λ x. Lands x name t) same l

numeric_of-Lands :
    (typmod : ℤ) (name : Text) (d : Decoding)
    → numeric_of typmod ≡ ok d
    → Lands d name (numeric_text typmod)
unfolding numeric_of display_nat display_int
numeric_of-Lands typmod name d h = elim (Bool-cases (eq_ℤ typmod bare_numeric_typmod)) [
  | inl e ↦ rw e (at name _ (numeric-Lands 38 9 name (omega arith)) (rw e at h))
  | inr e ↦
      let (s, scale, same, few) =
        fitted_bounds (packed_precision typmod) (packed_scale typmod) d (rw e at h) in
      rw (e, scale)
        (at name _ (numeric-Lands (packed_precision typmod) s name few) (ap ok (sym same)))
]

-- Over coordinate systems built as geoarrow documents: every column that the source takes has a
-- field that the destination takes, and is declared there by its own type; varchar, bpchar, name,
-- enums and citext by text, jsonb by json, a numeric by the precision and the scale that its typmod
-- packs, 38 and 9 where it has none, geometry and geography by their own names with the SRID that
-- their typmod pins, and any other type by bytea.
pub decoding_of-Lands :
    (maker : CrsMaker)
    → IsCrsMaker maker
    → (t : PgType) (typmod : ℤ) (name : Text) (d : Decoding) → decoding_of maker t typmod ≡ ok d
    → Lands d name (landed t typmod)
unfolding decoding_of field_of arrow_type encoding_of sql_type pg_type numeric_of
decoding_of-Lands maker laws PgType.bool typmod name d h =
    at name _ (field name (arrow_type bool) true none, refl, Encoding.bool, refl, refl) h
decoding_of-Lands maker laws PgType.int2 typmod name d h =
    at name _ (field name (arrow_type int2) true none, refl, Encoding.int2, refl, refl) h
decoding_of-Lands maker laws PgType.int4 typmod name d h =
    at name _ (field name (arrow_type int4) true none, refl, Encoding.int4, refl, refl) h
decoding_of-Lands maker laws PgType.int8 typmod name d h =
    at name _ (field name (arrow_type int8) true none, refl, Encoding.int8, refl, refl) h
decoding_of-Lands maker laws PgType.float4 typmod name d h =
    at name _ (field name (arrow_type float4) true none, refl, Encoding.float4, refl, refl) h
decoding_of-Lands maker laws PgType.float8 typmod name d h =
    at name _ (field name (arrow_type float8) true none, refl, Encoding.float8, refl, refl) h
decoding_of-Lands maker laws PgType.text typmod name d h =
    at name _ (field name (arrow_type text) true none, refl, Encoding.text, refl, refl) h
decoding_of-Lands maker laws PgType.varchar typmod name d h =
    at name _ (field name (arrow_type text) true none, refl, Encoding.text, refl, refl) h
decoding_of-Lands maker laws PgType.bpchar typmod name d h =
    at name _ (field name (arrow_type text) true none, refl, Encoding.text, refl, refl) h
decoding_of-Lands maker laws PgType.name typmod name d h =
    at name _ (field name (arrow_type text) true none, refl, Encoding.text, refl, refl) h
decoding_of-Lands maker laws PgType.bytea typmod name d h =
    at name _ (field name (arrow_type bytea) true none, refl, Encoding.bytea, refl, refl) h
decoding_of-Lands maker laws PgType.date typmod name d h =
    at name _ (field name (arrow_type date) true none, refl, Encoding.date, refl, refl) h
decoding_of-Lands maker laws PgType.timestamp typmod name d h =
    at name _ (field name (arrow_type timestamp) true none, refl, Encoding.timestamp, refl, refl) h
decoding_of-Lands maker laws PgType.timestamptz typmod name d h =
    at name _
      (field name (arrow_type timestamptz) true none, refl, Encoding.timestamptz, refl, refl) h
decoding_of-Lands maker laws PgType.interval typmod name d h =
    at name _ (field name (arrow_type interval) true none, refl, Encoding.interval, refl, refl) h
decoding_of-Lands maker laws PgType.uuid typmod name d h =
    at name _
      (field name (arrow_type uuid) true (some Extension.uuid), refl, Encoding.uuid, refl, refl) h
decoding_of-Lands maker laws PgType.json typmod name d h =
    at name _
      (field name (arrow_type json) true (some Extension.json), refl, Encoding.json, refl, refl) h
decoding_of-Lands maker laws PgType.jsonb typmod name d h =
    at name _
      (field name (arrow_type jsonb) true (some Extension.json), refl, Encoding.json, refl, refl) h
decoding_of-Lands maker laws PgType.numeric typmod name d h = numeric_of-Lands typmod name d h
decoding_of-Lands maker laws PgType.int4_range typmod name d h =
    at name _
      (range-Lands int4 name PgType.int4_range Encoding.int4
        (rw (type_of-fields (arrow_type int4))))
      h
decoding_of-Lands maker laws PgType.int8_range typmod name d h =
    at name _
      (range-Lands int8 name PgType.int8_range Encoding.int8
        (rw (type_of-fields (arrow_type int8))))
      h
decoding_of-Lands maker laws PgType.date_range typmod name d h =
    at name _
      (range-Lands date name PgType.date_range Encoding.date
        (rw (type_of-fields (arrow_type date))))
      h
decoding_of-Lands maker laws PgType.ts_range typmod name d h =
    at name _
      (range-Lands timestamp name PgType.ts_range Encoding.timestamp
        (rw (type_of-fields (arrow_type timestamp))))
      h
decoding_of-Lands maker laws PgType.tstz_range typmod name d h =
    at name _
      (range-Lands timestamptz name PgType.tstz_range Encoding.timestamptz
        (rw (type_of-fields (arrow_type timestamptz))))
      h
decoding_of-Lands maker laws PgType.num_range typmod name d h = at name _ (bare_range-Lands name) h
decoding_of-Lands maker laws (PgType.other_pg kind type_name oid) typmod name d h =
    at name _ (by_name-Lands maker laws kind type_name typmod oid name) h
