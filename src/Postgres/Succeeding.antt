-- ===== src/Postgres/Succeeding.antt =====
-- A load that a server takes succeeds, for Loader::replace in crates/transferred-postgres/src/destination.rs.
use mathlib.Core.List.{flatten}
use transferred.Prelude.{◌≡◌, refl, ap, ◌∙◌, ℕ, Text, List, ◌∷◌, ◌++◌, Result, ok, err, map_ok}
use transferred.Prelude.Bytes.{Bytes, be_i16}
use transferred.Core.Error.{TransferredError}
use transferred.Core.Arrow.{RecordBatch}
use transferred.Core.Transfer.{BatchStream}
use transferred.Postgres.Constants.{copy_header, copy_trailer}
use transferred.Postgres.Protocol.{Protocol}
use transferred.Postgres.Client.{Client, Call}
use transferred.Postgres.Encoder.{Encoder, encoder_new, declarations}
use transferred.Postgres.Destination.{
  Loader, load, copy, swap, swap_sql, replace, first_batch, create_staging, create_sql,
}
use transferred.Postgres.Appending.{AppendsRanges}
use transferred.Postgres.Chunks.{Accepts, Sent, copy_into, committed, batches_bytes, copy-committed}
use transferred.Postgres.Committed.{Swapped}

-- A call that answers, in whatever world.
abbrev pub Answers {ℓ} : {W : Type ℓ} → Call W (Unit {0}) → Type ℓ
Answers {W = W} call = (w : W) → (w' : W) × (call w ≡ (ok tt, w'))

-- A server that runs every statement and every transaction.
pub record Serves {ℓ} {W : Type ℓ} (client : Client W) : Type ℓ where
  pub batch_execute_lem : (sql : Text) → Answers (client.batch_execute sql)
  pub transaction_lem : Answers client.transaction
  pub execute_in_lem : (sql : Text) → Answers (client.execute_in sql)
  pub commit_lem : Answers client.commit

module _ {ℓ} {W : Type ℓ} (client : Client W) (server : Accepts client) (serves : Serves client)
    (P : Protocol) (laws : AppendsRanges P) (encoder : Encoder) (self : Loader) where
  committed-eq-ok :
      (p : Result ℕ TransferredError × W) {sent : Sent}
      → committed client server P laws encoder p ≡ ok sent
      → (n : ℕ) × (w : W) × (p ≡ (ok n, w)) × (server.sent w ≡ sent)
  committed-eq-ok (ok n, w) h = (n, w, refl, cc)
  committed-eq-ok (err e, w) h = absurd (cc h)

  swap_succeeds :
      (w : W) → (w' : W) × (swap client P self w ≡ (ok tt, w')) × Swapped client P self w w'
  unfolding swap
  swap_succeeds w =
      let (opened, began) = serves.transaction_lem w in
      let (executed, ran) = serves.execute_in_lem (swap_sql self) opened in
      let (w', done) = serves.commit_lem executed in
      (w', rw (began, ran, done) refl, (opened, began, executed, ran, done))

  module _ (partitions : List BatchStream) (first : RecordBatch) (rest : BatchStream)
      (bytes : Bytes) (start : first_batch (flatten partitions) ≡ ok (first, rest))
      (encodes : encoder_new P first.schema ≡ ok encoder)
      (written : batches_bytes P encoder (ok first ∷ rest) ≡ ok bytes) where
    load_succeeds :
        (w : W)
        → (n : ℕ) × (loaded : W) × (load client P self partitions w ≡ (ok n, loaded))
          × (server.sent loaded
              ≡ (copy_into self.staging, (copy_header ++ bytes) ++ be_i16 copy_trailer))
    unfolding load create_staging
    load_succeeds w =
        let (created, made) =
          serves.batch_execute_lem (create_sql self.staging (declarations encoder)) w in
        let (n, loaded, copied, sent) =
          committed-eq-ok (copy client P self encoder (ok first ∷ rest) created) (
            copy-committed client server P laws encoder self (ok first ∷ rest) created
            ∙ ap (map_ok _) written) in
        (n, loaded, rw (start, encodes, made) copied, sent)

    -- Over range writers that append and a server that takes everything it is sent and runs every
    -- statement, a load whose first batch has a schema with an encoder and whose rows can all be
    -- written succeeds: a COPY into the staging table has brought the header, the rows and the
    -- trailer, and after that the swap was run in a transaction that was committed.
    pub replace_succeeds :
        (w : W)
        → (n : ℕ) × (loaded : W) × (w' : W) × (replace client P self partitions w ≡ (ok n, w'))
          × (server.sent loaded
              ≡ (copy_into self.staging, (copy_header ++ bytes) ++ be_i16 copy_trailer))
          × Swapped client P self loaded w'
    unfolding replace
    replace_succeeds w =
        let (n, loaded, copied, sent) = load_succeeds w in
        let (w', done, swapped) = swap_succeeds loaded in
        (n, loaded, w', rw copied (rw done refl), sent, swapped)
