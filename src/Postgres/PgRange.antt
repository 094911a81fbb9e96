-- ===== src/Postgres/PgRange.antt =====
-- crates/transferred-postgres/src/pg_range.rs: the struct that carries a Postgres range.
use mathlib.Core.Logic.{ite}
use transferred.Prelude.{Option, Text, codes, [], ◌∷◌, true, false, none, Result, ok, err, map_ok}
use transferred.Core.Error.{AnyError, root, lit, foreign}
use transferred.Core.Arrow.{
  ArrowType, boolean, struct, Fields, field_then, field, data_type, to_fields,
}
use transferred.Core.Equality.{Fields-discrete}

abbrev pub lower : Text
lower = codes "lower"

abbrev pub upper : Text
upper = codes "upper"

abbrev pub lower_inc : Text
lower_inc = codes "lower_inc"

abbrev pub upper_inc : Text
upper_inc = codes "upper_inc"

abbrev pub empty : Text
empty = codes "empty"

unfoldable pub fields : ArrowType → Fields
fields t = to_fields (
    field lower t true none
    ∷ field upper t true none
    ∷ field lower_inc boolean false none
    ∷ field upper_inc boolean false none
    ∷ field empty boolean false none
    ∷ [])

abbrev pub not_a_range : AnyError
not_a_range = root (
    lit
      "`transferred.pg_range` needs a struct of `lower`, `upper`, `lower_inc`, `upper_inc` and `empty`, which `"
    ∷ foreign "the Arrow type"
    ∷ lit "` is not"
    ∷ [])

unfoldable pub type_of : ArrowType → Result ArrowType AnyError
type_of (struct (field_then first rest)) =
    ite (Fields-discrete (field_then first rest) (fields (data_type first))) (ok (data_type first))
      (err not_a_range)
type_of _ = err not_a_range

-- `ExtensionType::supports_data_type`
unfoldable pub supports_data_type : ArrowType → Result (Unit {0}) AnyError
supports_data_type t = map_ok (λ _. tt) (type_of t)

-- The one value of the extension type.
pub data PgRange : Type 0 where
  pg_range : PgRange

-- `ExtensionType::NAME`
abbrev pub name : Text
name = codes "transferred.pg_range"

unfoldable pub metadata : PgRange → Unit {0}
metadata self = tt

unfoldable pub serialize_metadata : PgRange → Option Text
serialize_metadata self = none

unfoldable pub deserialize_metadata : Option Text → Result (Unit {0}) AnyError
deserialize_metadata _ = ok tt

unfoldable pub try_new : ArrowType → Result PgRange AnyError
unfolding supports_data_type
try_new data_type = map_ok (λ _. pg_range) (supports_data_type data_type)
