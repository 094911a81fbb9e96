-- ===== src/Postgres/Geoarrow.antt =====
-- crates/transferred-postgres/src/geoarrow.rs: `geoarrow.wkb` tags as PostGIS reads them. Building a
-- coordinate system is `geoarrow-schema`'s, a parameter.
use transferred.Prelude.{
  ℕ, ◌/◌, ◌%◌, ◌^◌, Text, codes, ◌++◌, Bool, true, false, not, ◌&&◌, Option, some, none, ◌==◌,
  if◌then◌else◌,
}
use transferred.Prelude.Int.{ℤ, pos, negsuc, eq_ℤ}
use transferred.Prelude.Bytes.{to_u32, strip_prefix}
use transferred.Prelude.Decimal.{display_int, parse_i32}
use transferred.Core.Arrow.{
  Crs, CrsType, authority_code, JsonValue, string, Edges, spherical as spherical_edges, WkbType,
}

-- `Crs::default` and `Crs::from_authority_code`.
pub record CrsMaker : Type 0 where
  pub default : Crs
  pub from_authority_code : Text → Crs

abbrev pub epsg_prefix : Text
epsg_prefix = codes "EPSG:"

abbrev pub geometry : Text
geometry = codes "geometry"

abbrev pub geography : Text
geography = codes "geography"

abbrev pub unconstrained_typmod : ℤ
unconstrained_typmod = negsuc 0

abbrev pub unknown_srid : ℕ
unknown_srid = 0

module _ (maker : CrsMaker) where
  crs_of : Option ℤ → Crs
  crs_of none = maker.default
  crs_of (some code) = maker.from_authority_code (epsg_prefix ++ display_int code)

  wkb : Option ℤ → Option Edges → WkbType
  unfolding crs_of
  wkb code edges = record { crs = crs_of code; edges = edges }

  unfoldable pub planar : Option ℤ → WkbType
  unfolding wkb
  planar code = wkb code none

  unfoldable pub spherical : Option ℤ → WkbType
  unfolding wkb
  spherical code = wkb code (some spherical_edges)

has_spherical : Option Edges → Bool
has_spherical (some spherical_edges) = true
has_spherical _ = false

unfoldable pub is_spherical : WkbType → Bool
unfolding has_spherical
is_spherical tag = has_spherical tag.edges

as_str : Option JsonValue → Option Text
as_str (some (string s)) = some s
as_str _ = none

vouched : Option CrsType → Bool
vouched (some authority_code) = true
vouched _ = false

read_code : Option Text → Option ℤ
read_code none = none
read_code (some rest) = parse_i32 rest

strip_epsg : Option Text → Option Text
strip_epsg none = none
strip_epsg (some s) = strip_prefix s epsg_prefix

unfoldable pub epsg : WkbType → Option ℤ
unfolding as_str vouched read_code strip_epsg
epsg tag =
    if not (vouched tag.crs.crs_type)
    then none
    else read_code (strip_epsg (as_str tag.crs.crs_value))

-- `typmod & 0x0fff_ff00 >> 8`: 20 bits of the two's complement pattern, above the lowest 8.
unfoldable pub srid : ℤ → Option ℤ
srid typmod =
    let code = to_u32 typmod / 2 ^ 8 % 2 ^ 20 in
    if not (eq_ℤ typmod unconstrained_typmod) && not (code == unknown_srid)
    then some (pos code)
    else none
