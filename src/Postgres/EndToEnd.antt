-- ===== src/Postgres/EndToEnd.antt =====
-- A batch that is loaded and read back: Loader::replace in crates/transferred-postgres/src/destination.rs
-- against Decoder::decode in crates/transferred-postgres/src/source/pg_to_arrow.rs.
use mathlib.Core.List.{zip, flatten}
use transferred.Prelude.{
  ℕ, ◌≡◌, refl, ap, ◌∙◌, List, [], ◌∷◌, ◌++◌, map, append-nil, ok, length, All,
}
use transferred.Prelude.Int.{pos}
use transferred.Prelude.Bytes.{Bytes, be_i16}
use transferred.Core.Arrow.{ArrowField, RecordBatch}
use transferred.Postgres.Constants.{copy_header, copy_trailer}
use transferred.Postgres.Protocol.{Protocol}
use transferred.Postgres.Client.{Client}
use transferred.Postgres.Encoder.{Encoder, encoder_new}
use transferred.Postgres.EncoderShape.{encoder_new-IsEncoderOf}
use transferred.Postgres.Decoder.{decode_batch}
use transferred.Postgres.Destination.{Loader, replace, first_batch}
use transferred.Postgres.Appending.{AppendsRanges}
use transferred.Postgres.Chunks.{Accepts, copy_into}
use transferred.Postgres.Committed.{Swapped}
use transferred.Postgres.Succeeding.{Serves, replace_succeeds}
use transferred.Postgres.Values.{IsFaithful}
use transferred.Postgres.RangeRoundTrip.{CarriesRanges}
use transferred.Postgres.SentRows.{rows_bytes-written_rows}
use transferred.Postgres.Lanes.{length_encoders, Lane, IsLane, reader_at, written_column, zip-map}
use transferred.Postgres.BatchRoundTrip.{decode_batch-written_rows}

module _ {ℓ} {W : Type ℓ} (client : Client W) (server : Accepts client) (serves : Serves client)
    (P : Protocol) (appends : AppendsRanges P) (laws : IsFaithful P)
    (carries : CarriesRanges P) where
  -- Over crates whose writers and readers are inverse, range writers that append and whose ranges
  -- parse as their bounds, and a server that takes everything it is sent and runs every statement:
  -- where a batch's schema has an encoder, its columns hold values that Postgres can hold, ranges
  -- too whose bounds are neither texts nor bytes, and each is read by a decoding of the type it is
  -- written as, a load of that batch alone succeeds; a COPY into the staging table has brought the
  -- header, one message for each row and the trailer, the swap was then committed, and the source's
  -- decoder, from empty builders, reads the messages as the batch that its schema makes of the same
  -- columns, and is left as it started.
  pub replace-decode_batch :
      (self : Loader) (batch : RecordBatch) (encoder : Encoder) (lanes : List Lane)
      (schema : List ArrowField) (decoded : RecordBatch) (w : W)
      → encoder_new P batch.schema ≡ ok encoder
      → encoder.columns ≡ map (λ (lane : Lane). lane.encoder) lanes
      → batch.columns ≡ map (λ (lane : Lane). lane.array) lanes
      → All (IsLane P batch.num_rows) lanes
      → P.try_new_batch schema batch.columns ≡ ok decoded
      → (messages : List Bytes) × (n : ℕ) × (loaded : W) × (w' : W) × (replace client P self
            ((ok batch ∷ []) ∷ [])
            w
          ≡ (ok n, w'))
        × (server.sent loaded
            ≡ (copy_into self.staging, (copy_header ++ flatten messages) ++ be_i16 copy_trailer))
        × Swapped client P self loaded w'
        × (length messages ≡ batch.num_rows)
        × (decode_batch P
              (record { schema = schema; decoders = map (reader_at 0 0) lanes })
              messages
            ≡ ok (decoded, record { schema = schema; decoders = map (reader_at 0 0) lanes }))
  unfolding flatten first_batch
  replace-decode_batch self batch encoder lanes schema decoded w made encoders arrays all built =
      let (_, _, counted, few, takes) = encoder_new-IsEncoderOf P batch.schema encoder made in
      let many : length encoder.columns ≡ length lanes =
        ap length encoders ∙ length_encoders lanes in
      let columns : zip encoder.columns batch.columns ≡ map written_column lanes =
        rw (encoders, arrays) (zip-map lanes) in
      let (messages, rows, written, read) =
        decode_batch-written_rows P laws appends carries batch.num_rows encoder batch lanes columns
          (counted ∙ ap pos many) (rw (← many) few) all schema decoded (rw (← arrays) built) in
      let (n, loaded, w', replaced, sent, swapped) =
        replace_succeeds client server serves P appends encoder self ((ok batch ∷ []) ∷ []) batch []
          (flatten messages) refl made
          (rw (takes batch refl) (
            rw (rows_bytes-written_rows P encoder batch batch.num_rows 0, written)
              (ap ok (append-nil _))))
          w in
      (messages, n, loaded, w', replaced, sent, swapped, rows, read)
