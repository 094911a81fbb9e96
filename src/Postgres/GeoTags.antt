-- ===== src/Postgres/GeoTags.antt =====
-- Tags and typmods of PostGIS columns, for geoarrow.rs.
use transferred.Prelude.{
  Bool, Bool-cases, inl, inr, ◌⊎◌, not, ◌&&◌, ℕ, ◌+◌, ◌*◌, ◌/◌, ◌%◌, ◌^◌, ◌-◌, ltb, ◌<◌, ◌≡◌, refl,
  Text, ◌++◌, some, none, true, false, arith, ◌==◌, if◌then◌else◌,
}
use transferred.Prelude.Int.{ℤ, pos, negsuc, eq_ℤ, IsSigned}
use transferred.Prelude.Bytes.{to_u32, strip_prefix-append}
use transferred.Prelude.Decimal.{display_int, parse_i32-display_int}
use transferred.Core.Arrow.{authority_code, string}
use transferred.Postgres.Geoarrow.{
  CrsMaker, epsg_prefix, planar, spherical, is_spherical, epsg, srid, unconstrained_typmod,
}

-- What `geoarrow-schema` documents of the two constructors.
pub record IsCrsMaker (maker : CrsMaker) : Type 0 where
  pub no_type : maker.default.crs_type ≡ none
  pub code_type : (s : Text) → (maker.from_authority_code s).crs_type ≡ some authority_code
  pub code_value : (s : Text) → (maker.from_authority_code s).crs_value ≡ some (string s)

srid_cases :
    (typmod : ℤ)
    → (srid typmod ≡ none) ⊎ ((code : ℕ) × (srid typmod ≡ some (pos code)) × (code < 2147483648))
unfolding srid
srid_cases typmod =
    go (to_u32 typmod / 2 ^ 8 % 2 ^ 20) (eq_ℤ typmod unconstrained_typmod) (omega arith)
  where
    go :
        (code : ℕ) (bare : Bool)
        → code < 2147483648
        → ((if not bare && not (code == 0) then some (pos code) else none) ≡ none)
          ⊎ ((n : ℕ) × ((if not bare && not (code == 0) then some (pos code) else none)
                ≡ some (pos n))
              × (n < 2147483648))
    go code true h = inl refl
    go code false h = elim (Bool-cases (code == 0)) [
      | inl e ↦ inl (rw e refl)
      | inr e ↦ inr (code, rw e refl, h)
    ]

module _ (maker : CrsMaker) (laws : IsCrsMaker maker) where
  -- Over a coordinate system built as geoarrow documents, the EPSG code that a planar or a
  -- spherical tag is given, any i32, is read back from it, and only the spherical tag says it is on
  -- a globe.
  pub epsg-tagged :
      (code : ℤ)
      → IsSigned 2147483648 code
      → (epsg (planar maker (some code)) ≡ some code)
        × (epsg (spherical maker (some code)) ≡ some code)
        × (is_spherical (planar maker (some code)) ≡ false)
        × (is_spherical (spherical maker (some code)) ≡ true)
  unfolding epsg planar spherical is_spherical
  epsg-tagged code h = (read, read, refl, refl)
    where
      read : epsg (planar maker (some code)) ≡ some code
      read =
          rw
            (
              laws.code_type (epsg_prefix ++ display_int code),
              laws.code_value (epsg_prefix ++ display_int code),
              strip_prefix-append epsg_prefix (display_int code),
            )
            (parse_i32-display_int code h)

  untagged :
      (epsg (planar maker none) ≡ none)
      × (epsg (spherical maker none) ≡ none)
      × (is_spherical (planar maker none) ≡ false)
      × (is_spherical (spherical maker none) ≡ true)
  unfolding epsg planar spherical is_spherical
  untagged = (rw laws.no_type refl, rw laws.no_type refl, refl, refl)

  -- Of a tag for whatever typmod.
  pub epsg-srid :
      (typmod : ℤ)
      → (epsg (planar maker (srid typmod)) ≡ srid typmod)
        × (epsg (spherical maker (srid typmod)) ≡ srid typmod)
        × (is_spherical (planar maker (srid typmod)) ≡ false)
        × (is_spherical (spherical maker (srid typmod)) ≡ true)
  epsg-srid typmod = elim (srid_cases typmod) [
    | inl unpinned ↦ rw unpinned untagged
    | inr (code, pinned, few) ↦ rw pinned (epsg-tagged (pos code) few)
  ]

-- The typmod of 32 bits, which are read as a two's complement.
abbrev pub typmod_of : ℕ → ℤ
typmod_of bits = if ltb bits (2 ^ 31) then pos bits else negsuc (2 ^ 32 - 1 - bits)

typmod_of-bits : (bits : ℕ) → bits < 2 ^ 32 → to_u32 (typmod_of bits) ≡ bits
typmod_of-bits bits h = ground arith

typmod_of-all_ones :
    (bits : ℕ) → bits < 2 ^ 32 → eq_ℤ (typmod_of bits) unconstrained_typmod ≡ (bits == 4294967295)
typmod_of-all_ones bits h = ground arith

-- Of the 32 bits of a typmod, read as a two's complement, the bits 8 to 27 are the SRID that the
-- column is pinned to, whatever the 8 below and the 4 above hold; it is pinned to none where those
-- bits are 0 or where all 32 are set, which is -1.
pub srid-typmod :
    (top code subtype : ℕ)
    → top < 16
    → code < 2 ^ 20
    → subtype < 256
    → srid (typmod_of (top * 2 ^ 28 + code * 2 ^ 8 + subtype)) ≡ (
        if top * 2 ^ 28 + code * 2 ^ 8 + subtype == 4294967295
        then none
        else if code == 0
        then none
        else some (pos code))
unfolding srid
srid-typmod top code subtype ht hc hs =
    let few : top * 2 ^ 28 + code * 2 ^ 8 + subtype < 2 ^ 32 = omega arith in
    rw (typmod_of-bits _ few, typmod_of-all_ones _ few, middle top code subtype hc hs)
      (ground arith)
  where
    middle :
        (top code subtype : ℕ)
        → code < 2 ^ 20
        → subtype < 256
        → (top * 2 ^ 28 + code * 2 ^ 8 + subtype) / 2 ^ 8 % 2 ^ 20 ≡ code
    middle top code subtype hc hs = omega arith
