-- ===== src/Postgres/CopyIn.antt =====
-- crates/transferred-postgres/src/destination/copy_in.rs: rows into the COPY stream, a chunk at a time.
-- The buffer is threaded through; the sink is the client's.
use transferred.Prelude.{
  ℕ, zero, suc, ◌+◌, ◌*◌, ◌^◌, Text, codes, [], ◌∷◌, ◌++◌, ok, err, length, leb, if◌then◌else◌,
}
use transferred.Prelude.Bytes.{Bytes, be_i16}
use transferred.Core.Error.{in_destination}
use transferred.Core.Effect.{Effect, pure, raise, lift, mapped, ◌>>=◌, ◌>>◌}
use transferred.Core.Arrow.{RecordBatch}
use transferred.Core.Transfer.{BatchStream}
use transferred.Postgres.Constants.{copy_header, copy_trailer}
use transferred.Postgres.Protocol.{Protocol}
use transferred.Postgres.Client.{Client}
use transferred.Postgres.Encoder.{Encoder, check, write_row}

-- `64 << 10`
abbrev pub chunk_bytes : ℕ
chunk_bytes = 64 * 2 ^ 10

module _ {ℓ} {W : Type ℓ} (client : Client W) where
  -- `CopyIn::open`: the buffer starts with the header.
  unfoldable pub open_copy : Text → Effect W Bytes
  open_copy table = do
    mapped in_destination
        (client.copy_in (codes "copy " ++ (table ++ codes " from stdin (format binary)")))
    pure copy_header

  -- The buffer goes out, and an empty one is left.
  unfoldable pub send : Bytes → Effect W Bytes
  send buf = do mapped in_destination (client.send buf); pure []

  unfoldable pub send_full : Bytes → Effect W Bytes
  unfolding send
  send_full buf = if leb chunk_bytes (length buf) then send buf else pure buf

  unfoldable pub finish : Bytes → Effect W ℕ
  unfolding send
  finish buf = do _ ← send (buf ++ be_i16 copy_trailer); mapped in_destination client.finish

  module _ (P : Protocol) (encoder : Encoder) where
    -- The loop of `write_batch` over `left` rows from `row` on.
    unfoldable pub write_rows : RecordBatch → ℕ → ℕ → Bytes → Effect W Bytes
    unfolding send_full
    write_rows batch zero row buf = pure buf
    write_rows batch (suc left) row buf = do
      written ← lift (write_row P encoder batch row buf)
      buf' ← send_full written
      write_rows batch left (row + 1) buf'

    unfoldable pub write_batch : RecordBatch → Bytes → Effect W Bytes
    unfolding write_rows
    write_batch batch buf = do lift (check encoder batch); write_rows batch batch.num_rows 0 buf

    unfoldable pub write_batches : BatchStream → Bytes → Effect W Bytes
    unfolding write_batch
    write_batches [] buf = pure buf
    write_batches (err e ∷ batches) buf = raise e
    write_batches (ok batch ∷ batches) buf = do
      buf' ← write_batch batch buf
      write_batches batches buf'
