-- ===== src/Postgres/EncoderShape.antt =====
-- The encoder of a schema, for Encoder::new in crates/transferred-postgres/src/destination/arrow_to_pg.rs.
use mathlib.Core.Path.{subst}
use mathlib.Core.Logic.{if_pos}
use transferred.Prelude.{
  ℕ, suc, ◌<◌, ◌≡◌, refl, ap, sym, ◌∙◌, List, [], ◌∷◌, ok, length, collect, arith, >>=-eq-ok,
}
use transferred.Prelude.Int.{ℤ, pos}
use transferred.Core.Error.{Outcome}
use transferred.Core.Arrow.{ArrowField, RecordBatch}
use transferred.Core.Equality.{fields_discrete}
use transferred.Postgres.Protocol.{Protocol}
use transferred.Postgres.Encoder.{Encoder, encoder_new, column_new, to_i16, check}

ok_injective : {A : Type 0} {a b : A} → ◌≡◌ {A = Outcome A} (ok a) (ok b) → a ≡ b
ok_injective e = cc

length-collect :
    {A B : Type 0} (f : A → Outcome B) (xs : List A) {ys : List B}
    → collect f xs ≡ ok ys
    → length ys ≡ length xs
length-collect f [] h = cc
length-collect f (x ∷ xs) h =
    let (y, _, rest) = >>=-eq-ok (f x) _ h in
    let (ys, collected, same) = >>=-eq-ok (collect f xs) _ rest in
    ap length (sym (ok_injective same)) ∙ ap suc (length-collect f xs collected)

to_i16-eq-ok : (n : ℕ) {z : ℤ} → to_i16 n ≡ ok z → (n < 32768) × (z ≡ pos n)
unfolding to_i16
to_i16-eq-ok n h = ground arith

check-same :
    (encoder : Encoder) (batch : RecordBatch)
    → batch.schema ≡ encoder.schema
    → check encoder batch ≡ ok tt
unfolding check
check-same encoder batch agrees =
    rw (if_pos (fields_discrete batch.schema encoder.schema) agrees) refl

-- An encoder of a schema: a column for each field, as many as the header of a row says, and the batches
-- of that schema are the ones that it takes.
abbrev pub IsEncoderOf : List ArrowField → Encoder → Type 0
IsEncoderOf schema encoder =
    (encoder.schema ≡ schema)
    × (length encoder.columns ≡ length schema)
    × (encoder.field_count ≡ pos (length encoder.columns))
    × (length encoder.columns < 32768)
    × ((batch : RecordBatch) → batch.schema ≡ schema → check encoder batch ≡ ok tt)

-- An encoder that is built for a schema keeps it, has a column for each field, fewer than 32768 of
-- them, announces that many in every row, and takes every batch of that schema.
pub encoder_new-IsEncoderOf :
    (P : Protocol) (schema : List ArrowField) (encoder : Encoder)
    → encoder_new P schema ≡ ok encoder
    → IsEncoderOf schema encoder
unfolding encoder_new
encoder_new-IsEncoderOf P schema encoder h =
    let (columns, collected, rest) = >>=-eq-ok (collect (column_new P) schema) _ h in
    let (count, counted, made) = >>=-eq-ok (to_i16 (length columns)) _ rest in
    let (few, same) = to_i16-eq-ok (length columns) counted in
    subst (IsEncoderOf schema) (ok_injective made) (
      refl,
      length-collect (column_new P) schema collected,
      same,
      few,
      λ batch.
          check-same (record { schema = schema; columns = columns; field_count = count }) batch,
    )
