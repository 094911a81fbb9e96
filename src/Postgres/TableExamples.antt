-- ===== src/Postgres/TableExamples.antt =====
-- The theorems on a table that is read, at a table of two rows and at small chunks.
use mathlib.Core.List.{zip}
use transferred.Prelude.{◌≡◌, refl, codes, [], ◌∷◌, ok, Bool, false, arith}
use transferred.Prelude.Bytes.{be_i16, be_i32, starts_with}
use transferred.Core.Transfer.{BatchStream}
use transferred.Postgres.Connection.{connect, split_verify_full}
use transferred.Postgres.PgToArrow.{arrow_type, decoding_of, field_of}
use transferred.Postgres.Decoder.{derive, column_new, fresh_builder}
use transferred.Postgres.Source.{stream_partitions}
use transferred.Postgres.Write.{write}
use transferred.Postgres.Encoder.{
  write_row, write_fields, write_field, column_write, field_len, patch,
}
use transferred.Postgres.Values
use transferred.Postgres.TableRoundTrip.{Slices, stream_partitions-Slices}
use transferred.Postgres.Samples.{plain, plain-AppendsRanges, maker, batch, encoder, schema}
use transferred.Postgres.FaithfulSample.{plain-IsFaithful}
use transferred.Postgres.FaithfulRanges.{plain-CarriesRanges}
use transferred.Postgres.SampleTable.{ids, messages, answered, answering, rows_between}
use transferred.Postgres.Examples.{driver}

stream_partitions-Slices_example :
    (batches : BatchStream) × (stream_partitions plain
        (answering Bool)
        maker
        driver
        (record { dsn = codes "host=db"; table = codes "users" })
        false
      ≡ (ok (batches ∷ []), false))
    × Slices rows_between 2 0 batches
unfolding zip fresh_builder arrow_type write_row write_fields write_field column_write write
    field_len patch be_i32 be_i16 derive column_new decoding_of field_of connect split_verify_full
    starts_with
stream_partitions-Slices_example =
    stream_partitions-Slices plain plain-IsFaithful plain-AppendsRanges plain-CarriesRanges 2
      encoder batch (ids ∷ []) refl refl (omega arith)
      ((Values.Reads.int4, (omega arith, (tt, tt)), refl, refl), tt) schema rows_between
      (λ from to le h. refl) (answering Bool) maker driver
      (record { dsn = codes "host=db"; table = codes "users" }) (codes "users") answered messages
      false false false false false refl refl refl refl refl refl
