-- ===== src/Postgres/Chunks.antt =====
-- What a whole COPY brings to the server, for destination/copy_in.rs and its caller Loader::copy in
-- destination.rs.
use transferred.Prelude.{
  codes, ℕ, zero, suc, ◌+◌, ◌≡◌, refl, ap, sym, ◌∙◌, Text, [], ◌∷◌, ◌++◌, append_assoc, append-nil,
  Result, ok, err, map_ok, ◌>>=◌, leb, length, Bool, true, false, if◌then◌else◌,
}
use transferred.Prelude.Bytes.{Bytes, be_i16}
use transferred.Core.Error.{Outcome, TransferredError}
use transferred.Core.Effect.{Effect, continue, cleaned}
use transferred.Core.Arrow.{RecordBatch}
use transferred.Core.Transfer.{BatchStream}
use transferred.Postgres.Constants.{copy_header, copy_trailer}
use transferred.Postgres.Protocol.{Protocol}
use transferred.Postgres.Client.{Client}
use transferred.Postgres.Encoder.{Encoder, check, write_row}
use transferred.Postgres.CopyIn.{
  chunk_bytes, open_copy, send, send_full, finish, write_rows, write_batch, write_batches,
}
use transferred.Postgres.Destination.{Loader, copy}
use transferred.Postgres.Appending.{AppendsRanges}
use transferred.Postgres.RowAppending.{write_row-append}

-- The statement that COPYs rows into a table.
abbrev pub copy_into : Text → Text
copy_into table = codes "copy " ++ (table ++ codes " from stdin (format binary)")

-- A COPY: its statement, and the bytes that it has brought.
abbrev pub Sent : Type 0
Sent = Text × Bytes

abbrev pub plus : Sent → Bytes → Sent
plus sent bytes = (sent.0, sent.1 ++ bytes)

plus_assoc : (sent : Sent) (a b : Bytes) → plus (plus sent a) b ≡ plus sent (a ++ b)
plus_assoc sent a b = ap (λ bytes. (sent.0, bytes)) (append_assoc sent.1 a b)

plus-nil : (sent : Sent) → plus sent [] ≡ sent
plus-nil sent = ap (λ bytes. (sent.0, bytes)) (append-nil sent.1)

-- A server that takes whatever a COPY brings, with `sent` for the last COPY that was opened: the
-- documented behaviour of `copy_in` and of its sink, without the errors that either may have.
pub record Accepts {ℓ} {W : Type ℓ} (client : Client W) : Type ℓ where
  pub sent : W → Sent
  pub opened : Text → W → W
  pub after : Bytes → W → W
  pub count : W → ℕ
  pub closed : W → W
  pub copy_in_lem : (query : Text) (w : W) → client.copy_in query w ≡ (ok tt, opened query w)
  pub sent-opened : (query : Text) (w : W) → sent (opened query w) ≡ (query, [])
  pub send_lem : (bytes : Bytes) (w : W) → client.send bytes w ≡ (ok tt, after bytes w)
  pub sent-after : (bytes : Bytes) (w : W) → sent (after bytes w) ≡ plus (sent w) bytes
  pub finish_lem : (w : W) → client.finish w ≡ (ok (count w), closed w)
  pub sent-closed : (w : W) → sent (closed w) ≡ sent w

-- The rows of a batch from `row` on, and of a stream up to its first error.
module _ (P : Protocol) (encoder : Encoder) where
  abbrev pub rows_bytes : RecordBatch → ℕ → ℕ → Outcome Bytes
  rows_bytes batch zero row = ok []
  rows_bytes batch (suc left) row = write_row P encoder batch row [] >>= λ head.
      rows_bytes batch left (row + 1) >>= λ tail. ok (head ++ tail)

  abbrev pub batches_bytes : BatchStream → Outcome Bytes
  batches_bytes [] = ok []
  batches_bytes (err e ∷ batches) = err e
  batches_bytes (ok batch ∷ batches) =
      (check encoder batch >>= λ _. rows_bytes batch batch.num_rows 0) >>= λ head.
      batches_bytes batches >>= λ tail. ok (head ++ tail)

module _ {ℓ} {W : Type ℓ} (client : Client W) (server : Accepts client) (P : Protocol)
    (laws : AppendsRanges P) (encoder : Encoder) where
  -- What the server has with what waits in the buffer.
  abbrev flushed : Result Bytes TransferredError × W → Outcome Sent
  flushed (r, w) = map_ok (λ buf. plus (server.sent w) buf) r

  abbrev behind_total : Sent → Outcome Bytes → Outcome Sent
  behind_total total r = map_ok (plus total) r

  send_full-flushed :
      (f : Bytes → Effect W Bytes) (g : Sent → Outcome Sent)
      → ((buf : Bytes) (w : W) → flushed (f buf w) ≡ g (plus (server.sent w) buf))
      → (buf : Bytes) (w : W)
      → flushed (continue (send_full client buf w).0 f (send_full client buf w).1)
        ≡ g (plus (server.sent w) buf)
  unfolding send_full send
  send_full-flushed f g h buf w = go (leb chunk_bytes (length buf))
    where
      go :
          (full : Bool)
          → flushed (
              continue
                ((if full then send client buf else (λ v. (ok buf, v))) w).0
                f
                ((if full then send client buf else (λ v. (ok buf, v))) w).1)
            ≡ g (plus (server.sent w) buf)
      go true =
          rw (server.send_lem buf w)
            (h [] (server.after buf w) ∙ ap g (plus-nil _ ∙ server.sent-after buf w))
      go false = h buf w

  then-flushed :
      (m : Result Bytes TransferredError × W) (f : Bytes → Effect W Bytes) (total : Sent)
      (r s : Outcome Bytes)
      → flushed m ≡ behind_total total r
      → ((buf : Bytes) (w : W) → flushed (f buf w) ≡ behind_total (plus (server.sent w) buf) s)
      → flushed (continue m.0 f m.1)
        ≡ behind_total total (r >>= λ head. s >>= λ tail. ok (head ++ tail))
  then-flushed (ok buf, w) f total (ok head) s h k = k buf w ∙ rw (ok_injective h) (go s)
    where
      ok_injective : {a b : Sent} → ◌≡◌ {A = Outcome Sent} (ok a) (ok b) → a ≡ b
      ok_injective e = cc

      go :
          (t : Outcome Bytes)
          → behind_total (plus total head) t ≡ behind_total total (t >>= λ tail. ok (head ++ tail))
      go (ok tail) = ap ok (plus_assoc total head tail)
      go (err e) = refl
  then-flushed (ok buf, w) f total (err e) s h k = absurd (cc h)
  then-flushed (err e, w) f total (ok head) s h k = absurd (cc h)
  then-flushed (err e, w) f total (err e') s h k = cc

  row-flushed :
      (f : Bytes → Effect W Bytes) (s r : Outcome Bytes) (w : W) (buf : Bytes)
      → ((bytes : Bytes) (v : W)
          → flushed (f bytes v) ≡ behind_total (plus (server.sent v) bytes) s)
      → flushed (
          continue
            (map_ok (λ bytes. buf ++ bytes) r)
            (λ written v. continue (send_full client written v).0 f (send_full client written v).1)
            w)
        ≡ behind_total (plus (server.sent w) buf) (r >>= λ head. s >>= λ tail. ok (head ++ tail))
  row-flushed f s (err e) w buf h = refl
  row-flushed f s (ok head) w buf h =
      send_full-flushed f (λ total. behind_total total s) h (buf ++ head) w ∙ go s
    where
      go :
          (t : Outcome Bytes)
          → behind_total (plus (server.sent w) (buf ++ head)) t
            ≡ behind_total (plus (server.sent w) buf) (t >>= λ tail. ok (head ++ tail))
      go (ok tail) = ap ok (
          sym (ap (λ front. plus front tail) (plus_assoc (server.sent w) buf head))
          ∙ plus_assoc (plus (server.sent w) buf) head tail)
      go (err e) = refl

  write_rows-flushed :
      (batch : RecordBatch) (left row : ℕ) (buf : Bytes) (w : W)
      → flushed (write_rows client P encoder batch left row buf w)
        ≡ behind_total (plus (server.sent w) buf) (rows_bytes P encoder batch left row)
  unfolding write_rows
  write_rows-flushed batch zero row buf w = ap ok (sym (plus-nil (plus (server.sent w) buf)))
  write_rows-flushed batch (suc left) row buf w =
      rw ((rw append-nil at (write_row-append P laws encoder batch row buf []))) (
        row-flushed (write_rows client P encoder batch left (row + 1))
          (rows_bytes P encoder batch left (row + 1)) (write_row P encoder batch row []) w buf
          (write_rows-flushed batch left (row + 1)))

  write_batch-flushed :
      (batch : RecordBatch) (buf : Bytes) (w : W)
      → flushed (write_batch client P encoder batch buf w)
        ≡ behind_total
            (plus (server.sent w) buf)
            (check encoder batch >>= λ _. rows_bytes P encoder batch batch.num_rows 0)
  unfolding write_batch
  write_batch-flushed batch buf w = go (check encoder batch)
    where
      go :
          (r : Outcome (Unit {0}))
          → flushed (continue r (λ _. write_rows client P encoder batch batch.num_rows 0 buf) w)
            ≡ behind_total
                (plus (server.sent w) buf)
                (r >>= λ _. rows_bytes P encoder batch batch.num_rows 0)
      go (ok _) = write_rows-flushed batch batch.num_rows 0 buf w
      go (err e) = refl

  write_batches-flushed :
      (batches : BatchStream) (buf : Bytes) (w : W)
      → flushed (write_batches client P encoder batches buf w)
        ≡ behind_total (plus (server.sent w) buf) (batches_bytes P encoder batches)
  unfolding write_batches
  write_batches-flushed [] buf w = ap ok (sym (plus-nil (plus (server.sent w) buf)))
  write_batches-flushed (err e ∷ batches) buf w = refl
  write_batches-flushed (ok batch ∷ batches) buf w =
      then-flushed (write_batch client P encoder batch buf w)
        (write_batches client P encoder batches) (plus (server.sent w) buf) _
        (batches_bytes P encoder batches) (write_batch-flushed batch buf w)
        (write_batches-flushed batches)

  -- What the server has of a COPY that came to its end.
  abbrev pub committed : Result ℕ TransferredError × W → Outcome Sent
  committed (r, w) = map_ok (λ n. server.sent w) r

  finish-committed :
      (m : Result Bytes TransferredError × W) (clean : W → W) (r : Outcome Sent)
      → flushed m ≡ r
      → committed
          (cleaned clean (continue m.0 (finish client) m.1).0 (continue m.0 (finish client) m.1).1)
        ≡ map_ok (λ sent. plus sent (be_i16 copy_trailer)) r
  unfolding finish send
  finish-committed (ok buf, w) clean r h = rw (server.send_lem (buf ++ be_i16 copy_trailer) w) (
      rw (server.finish_lem (server.after (buf ++ be_i16 copy_trailer) w)) (
        ap ok
          (server.sent-closed _ ∙ server.sent-after _ w ∙ sym (plus_assoc (server.sent w) buf _))
        ∙ ap (map_ok (λ sent. plus sent (be_i16 copy_trailer))) h))
  finish-committed (err e, w) clean r h = ap (map_ok _) h

  -- With a server that takes everything and range writers that append, a COPY succeeds exactly when
  -- every row of every batch can be written and fails with the first error otherwise; when it
  -- succeeds, the COPY that the server was asked for is into the staging table and has brought the
  -- header, the rows in order as each would be written to an empty buffer, and the trailer,
  -- whatever chunks they went out in.
  pub copy-committed :
      (self : Loader) (batches : BatchStream) (w : W)
      → committed (copy client P self encoder batches w)
        ≡ map_ok
            (λ rows. (copy_into self.staging, (copy_header ++ rows) ++ be_i16 copy_trailer))
            (batches_bytes P encoder batches)
  unfolding copy open_copy
  copy-committed self batches w = rw (server.copy_in_lem _ w) (
      finish-committed (write_batches client P encoder batches copy_header (server.opened query w))
        client.drop_sink _
        (rw (server.sent-opened query w) at
          (write_batches-flushed batches copy_header (server.opened query w)))
      ∙ go (batches_bytes P encoder batches))
    where
      query : Text
      query = copy_into self.staging

      go :
          (r : Outcome Bytes)
          → map_ok (λ sent. plus sent (be_i16 copy_trailer)) (map_ok (plus (query, copy_header)) r)
            ≡ map_ok (λ rows. (query, (copy_header ++ rows) ++ be_i16 copy_trailer)) r
      go (ok bytes) = refl
      go (err e) = refl
