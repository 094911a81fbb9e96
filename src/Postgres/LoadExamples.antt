-- ===== src/Postgres/LoadExamples.antt =====
-- The theorems on a load that succeeds at concrete values.
use mathlib.Core.List.{zip, flatten}
use transferred.Postgres.Chunks.{copy_into}
use transferred.Postgres.Samples.{old}
use transferred.Prelude.{◌≡◌, refl, List, [], ◌∷◌, ok, length, arith}
use transferred.Prelude.Bytes.{Bytes}
use transferred.Postgres.PgToArrow.{arrow_type}
use transferred.Postgres.Decoder.{decode_batch, fresh_builder}
use transferred.Postgres.Values
use transferred.Postgres.Lanes.{reader_at}
use transferred.Postgres.Samples.{plain, plain-AppendsRanges, batch, encoder, schema}
use transferred.Postgres.FaithfulSample.{plain-IsFaithful}
use transferred.Postgres.FaithfulRanges.{plain-CarriesRanges}
use transferred.Prelude.{ℕ, ◌++◌}
use transferred.Prelude.Bytes.{be_i16, be_i32}
use transferred.Core.Equality.{fields_discrete}
use transferred.Postgres.Constants.{copy_header, copy_trailer}
use transferred.Postgres.ArrowToPg.{encoding_of}
use transferred.Postgres.Write.{write}
use transferred.Postgres.Encoder.{
  encoder_new, check, write_row, write_fields, write_field, column_write, field_len, patch,
}
use transferred.Postgres.Destination.{replace, first_batch}
use transferred.Postgres.Committed.{Swapped}
use transferred.Postgres.Succeeding.{replace_succeeds}
use transferred.Postgres.Samples.{client, accepts, users, Server}
use transferred.Postgres.SampleTable.{ids, serves}
use transferred.Postgres.EncoderShape.{IsEncoderOf, encoder_new-IsEncoderOf}
use transferred.Postgres.EndToEnd.{replace-decode_batch}

-- The row of the one value 7, and that of a null.
abbrev two_rows : Bytes
two_rows = 0 ∷ 1 ∷ 0 ∷ 0 ∷ 0 ∷ 4 ∷ 0 ∷ 0 ∷ 0 ∷ 7 ∷ 0 ∷ 1 ∷ 255 ∷ 255 ∷ 255 ∷ 255 ∷ []

replace_succeeds_example :
    (n : ℕ) × (loaded : Server) × (w' : Server) × (replace client plain users
        ((ok batch ∷ []) ∷ [])
        old
      ≡ (ok n, w'))
    × (accepts.sent loaded
        ≡ (copy_into users.staging, (copy_header ++ two_rows) ++ be_i16 copy_trailer))
    × Swapped client plain users loaded w'
unfolding encoder_new encoding_of check fields_discrete write_row write_fields write_field
    column_write write field_len patch be_i32 be_i16 zip flatten first_batch
replace_succeeds_example =
    replace_succeeds client accepts serves plain plain-AppendsRanges encoder users
      ((ok batch ∷ []) ∷ []) batch [] two_rows refl refl refl old

encoder_new-IsEncoderOf_example : IsEncoderOf schema encoder
unfolding encoder_new encoding_of
encoder_new-IsEncoderOf_example = encoder_new-IsEncoderOf plain schema encoder refl

replace-decode_batch_example :
    (messages : List Bytes) × (n : ℕ) × (loaded : Server) × (w' : Server) × (replace client plain
        users
        ((ok batch ∷ []) ∷ [])
        old
      ≡ (ok n, w'))
    × (accepts.sent loaded
        ≡ (copy_into users.staging, (copy_header ++ flatten messages) ++ be_i16 copy_trailer))
    × Swapped client plain users loaded w'
    × (length messages ≡ 2)
    × (decode_batch plain (record { schema = schema; decoders = reader_at 0 0 ids ∷ [] }) messages
        ≡ ok (batch, record { schema = schema; decoders = reader_at 0 0 ids ∷ [] }))
unfolding encoder_new encoding_of fresh_builder arrow_type
replace-decode_batch_example =
    replace-decode_batch client accepts serves plain plain-AppendsRanges plain-IsFaithful
      plain-CarriesRanges users batch encoder (ids ∷ []) schema batch old refl refl refl
      ((Values.Reads.int4, (omega arith, (tt, tt)), refl, refl), tt) refl
