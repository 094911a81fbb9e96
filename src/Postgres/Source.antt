-- ===== src/Postgres/Source.antt =====
-- crates/transferred-postgres/src/source.rs: a table streamed out over binary COPY. Every
-- reader of a stream stops at its first error, so the model ends the decoded stream there.
use transferred.Prelude.{
  ℕ, ◌+◌, Text, codes, List, [], ◌∷◌, ◌++◌, ok, err, length, leb, true, false,
}
use transferred.Prelude.Bytes.{Bytes}
use transferred.Core.Error.{Outcome, in_source}
use transferred.Core.Effect.{Effect, pure, lift, mapped, ◌>>=◌, ◌>>◌}
use transferred.Core.Transfer.{BatchStream}
use transferred.Postgres.Protocol.{Protocol}
use transferred.Postgres.Geoarrow.{CrsMaker}
use transferred.Postgres.Client.{Client, Driver}
use transferred.Postgres.Connection.{connect}
use transferred.Postgres.CopyOut.{rows}
use transferred.Postgres.Decoder.{Decoder, derive, decode_batch}

abbrev pub batch_rows : ℕ
batch_rows = 10000

pub record PostgresSource : Type 0 where
  pub dsn : Text
  pub table : Text

unfoldable pub new : Text → Text → PostgresSource
new dsn table = record { dsn = dsn; table = table }

-- `try_chunks(size)`: full chunks and a last short one. At an error the rows gathered so far go with
-- it into `TryChunksError`, which the source takes the error of.
unfoldable pub try_chunks : {A : Type 0} → ℕ → List A → List (Outcome A) → List (Outcome (List A))
try_chunks size gathered [] = elim gathered [ [] ↦ [] | x ∷ xs ↦ ok (x ∷ xs) ∷ [] ]
try_chunks size gathered (err e ∷ items) = err e ∷ try_chunks size [] items
try_chunks size gathered (ok x ∷ items) = elim (leb size (length gathered + 1)) [
  | true ↦ ok (gathered ++ x ∷ []) ∷ try_chunks size [] items
  | false ↦ try_chunks size (gathered ++ x ∷ []) items
]

module _ (P : Protocol) where
  -- The decoder is moved into the stream's closure: each chunk leaves it to the next. An error leaves
  -- it in the middle of a row.
  unfoldable pub decode_chunks : Decoder → List (Outcome (List Bytes)) → BatchStream
  decode_chunks decoder [] = []
  decode_chunks decoder (err e ∷ chunks) = err e ∷ []
  decode_chunks decoder (ok chunk ∷ chunks) = elim (decode_batch P decoder chunk) [
    | err e ↦ err e ∷ []
    | ok (batch, decoder') ↦ ok batch ∷ decode_chunks decoder' chunks
  ]

  module _ {ℓ} {W : Type ℓ} (client : Client W) (maker : CrsMaker) where
    unfoldable pub batches : Text → Effect W BatchStream
    unfolding decode_chunks try_chunks
    batches table = do
      columns ← mapped in_source (client.prepare (codes "select * from " ++ table))
      messages ← mapped in_source (
          client.copy_out
            (codes "copy (select * from " ++ (table ++ codes ") to stdout (format binary)")))
      decoder ← lift (derive P maker columns)
      pure (decode_chunks decoder (try_chunks batch_rows [] (rows messages)))

    unfoldable pub verified_table : Text → Effect W Text
    verified_table table = mapped in_source (client.regclass table)

    unfoldable pub stream_partitions : Driver W → PostgresSource → Effect W (List BatchStream)
    unfolding batches verified_table
    stream_partitions driver self = do
      mapped in_source (connect driver self.dsn)
      table ← verified_table self.table
      stream ← batches table
      pure (stream ∷ [])
