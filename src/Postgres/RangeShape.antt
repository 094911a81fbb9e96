-- ===== src/Postgres/RangeShape.antt =====
-- What counts as a range struct, for pg_range.rs.
use mathlib.Core.Logic.{if_pos, if_neg}
use transferred.Prelude.{◌↔◌, ◌≡◌, refl, ok, err}
use transferred.Core.Arrow.{ArrowType, struct, field_then, field}
use transferred.Core.Equality.{Fields-discrete}
use transferred.Postgres.PgRange.{fields, type_of, not_a_range}

-- The bounds' type of the struct that PgRange::fields declares is read back from it.
pub type_of-fields : (t : ArrowType) → type_of (struct (fields t)) ≡ ok t
unfolding type_of fields
type_of-fields t = rw (if_pos _ refl)

-- A type is read as a range over given bounds only if it is the struct that PgRange::fields
-- declares for them: names, order and nullability included.
pub type_of_only : (t bounds : ArrowType) → type_of t ≡ ok bounds → t ≡ struct (fields bounds)
unfolding type_of
type_of_only (struct (field_then (field name t nullable tag) rest)) bounds h =
    elim (Fields-discrete (field_then (field name t nullable tag) rest) (fields t)) [
      | yes e ↦ let same : ok t ≡ ok bounds = rw (if_pos _ e) at h in cc (e, same)
      | no e ↦ let failed : err not_a_range ≡ ok bounds = rw (if_neg _ e) at h in cc failed
    ]
type_of_only t bounds h = cc

-- The bounds' type of the struct that PgRange::fields declares is read back from it, and a type is
-- read as a range over given bounds only if it is that struct: names, order and nullability
-- included.
pub type_of_iff : (t bounds : ArrowType) → (type_of t ≡ ok bounds) ↔ (t ≡ struct (fields bounds))
type_of_iff t bounds = (type_of_only t bounds, λ same. rw same (type_of-fields bounds))
