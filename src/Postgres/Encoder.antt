-- ===== src/Postgres/Encoder.antt =====
-- crates/transferred-postgres/src/destination/arrow_to_pg.rs: the columns of the target table, and the
-- COPY rows of a batch.
use mathlib.Core.Logic.{ite}
use mathlib.Core.List.{zip}
use transferred.Prelude.{
  ℕ, ◌-◌, Text, codes, List, [], ◌∷◌, ◌++◌, map, ok, err, map_err, collect, join, length, take,
  drop, ltb, leb, ◌>>=◌, if◌then◌else◌,
}
use transferred.Prelude.Int.{ℤ, pos}
use transferred.Prelude.Bytes.{Bytes, be_i16, be_i32}
use transferred.Core.Error.{
  lit, text, nat, foreign, Outcome, TransferredError, destination_failed, display,
}
use transferred.Core.Arrow.{ArrowField, field_name, data_type, extension, Array, RecordBatch}
use transferred.Core.Equality.{fields_discrete}
use transferred.Postgres.Constants.{null_field}
use transferred.Postgres.Protocol.{Protocol, IsNull, null, not_null}
use transferred.Postgres.ArrowToPg.{Encoding, encoding_of, sql_type}
use transferred.Postgres.Write.{write}

pub record ColumnEncoder : Type 0 where
  pub name : Text
  pub encoding : Encoding

pub record Encoder : Type 0 where
  pub schema : List ArrowField
  pub columns : List ColumnEncoder
  pub field_count : ℤ

too_many_columns : ℕ → TransferredError
too_many_columns n =
    destination_failed (lit "a COPY row holds at most 32767 columns, not " ∷ nat n ∷ [])

-- `i16::try_from`
unfoldable pub to_i16 : ℕ → Outcome ℤ
unfolding too_many_columns
to_i16 n = if ltb n 32768 then ok (pos n) else err (too_many_columns n)

declaration : ColumnEncoder → Text
declaration column = column.name ++ (codes " " ++ sql_type column.encoding)

unfoldable pub declarations : Encoder → Text
unfolding declaration
declarations self = join (codes ", ") (map declaration self.columns)

-- `encoder.check(batch)`: the fields, not the schema's metadata, have to agree.
unfoldable pub check : Encoder → RecordBatch → Outcome (Unit {0})
check self batch = ite (fields_discrete batch.schema self.schema) (ok tt) (
    err (
      destination_failed (
        lit "batch schema `"
        ∷ foreign "the batch's schema"
        ∷ lit "` does not match the target table's `"
        ∷ foreign "the encoder's schema"
        ∷ lit "`"
        ∷ [])))

-- The length of a COPY field: what was appended behind `value_at`, unless it is a null.
unfoldable pub field_len : IsNull → ℕ → ℕ → Outcome ℤ
field_len null end value_at = ok null_field
field_len not_null end value_at =
    if ltb (end - value_at) 2147483648
    then ok (pos (end - value_at))
    else err (destination_failed (lit "value is too large for a COPY field" ∷ []))

-- `buf.get_mut(start_at..value_at)` and `copy_from_slice`, over a slot of four bytes.
unfoldable pub patch : ℕ → ℕ → Bytes → Bytes → Outcome Bytes
patch start_at value_at len buf =
    if leb value_at (length buf)
    then ok (take start_at buf ++ (len ++ drop value_at buf))
    else err (destination_failed (lit "COPY field length slot is out of bounds" ∷ []))

module _ (P : Protocol) where
  unfoldable pub column_new : ArrowField → Outcome ColumnEncoder
  column_new arrow_field = do
    encoding ← encoding_of (data_type arrow_field) (extension arrow_field)
    ok (record { name = P.escape_identifier (field_name arrow_field); encoding = encoding })

  unfoldable pub encoder_new : List ArrowField → Outcome Encoder
  unfolding column_new to_i16
  encoder_new schema = do
    columns ← collect column_new schema
    field_count ← to_i16 (length columns)
    ok (record { schema = schema; columns = columns; field_count = field_count })

  -- `ColumnEncoder::write`: as in the source, only the line of the error's variant is kept.
  unfoldable pub column_write : ColumnEncoder → Array → ℕ → Bytes → Outcome (IsNull × Bytes)
  column_write self array row buf =
      map_err
        (λ error. destination_failed (lit "column " ∷ text self.name ∷ lit ": " ∷ display error))
        (write P self.encoding array row buf)

  unfoldable pub write_field : ColumnEncoder → Array → ℕ → Bytes → Outcome Bytes
  write_field self array row buf = do
    let start_at = length buf
    let hole = buf ++ be_i32 (pos 0)
    let value_at = length hole
    (n, written) ← column_write self array row hole
    len ← field_len n (length written) value_at
    patch start_at value_at (be_i32 len) written

  unfoldable pub write_fields : List (ColumnEncoder × Array) → ℕ → Bytes → Outcome Bytes
  write_fields [] row buf = ok buf
  write_fields ((column, array) ∷ rest) row buf = do
    buf' ← write_field column array row buf
    write_fields rest row buf'

  unfoldable pub write_row : Encoder → RecordBatch → ℕ → Bytes → Outcome Bytes
  write_row self batch row buf =
      write_fields (zip self.columns batch.columns) row (buf ++ be_i16 self.field_count)
