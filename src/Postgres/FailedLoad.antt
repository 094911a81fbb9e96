-- ===== src/Postgres/FailedLoad.antt =====
-- A load that fails, for Loader::replace in crates/transferred-postgres/src/destination.rs.
use transferred.Prelude.{
  ℕ, zero, suc, ◌≡◌, refl, List, [], ◌∷◌, Result, ok, err, leb, length, Bool, true, false,
  if◌then◌else◌, map_err,
}
use transferred.Prelude.Bytes.{Bytes}
use transferred.Core.Error.{AnyError, in_destination, TransferredError}
use transferred.Core.Effect.{pure, lift, mapped, on_error, continue, ◌>>=◌}
use transferred.Core.Keeping.{
  Keeps, FailsKeeping, bind-Keeps, bind-FailsKeeping, lift-Keeps, bind-Through, pure-FailsKeeping,
  on_error-Keeps, on_error-FailsKeeping,
}
use transferred.Core.Arrow.{ArrowField, RecordBatch}
use transferred.Core.Transfer.{BatchStream}
use transferred.Postgres.Protocol.{Protocol}
use transferred.Postgres.Client.{Client}
use transferred.Postgres.Encoder.{Encoder, encoder_new, declarations, write_row, check}
use transferred.Postgres.CopyIn.{
  chunk_bytes, open_copy, send, send_full, finish, write_rows, write_batch, write_batches,
}
use transferred.Postgres.Chunks.{copy_into}
use transferred.Postgres.Constants.{copy_header}
use transferred.Postgres.Destination.{
  Loader, create_sql, drop_sql, swap_sql, create_staging, copy, load, swap, drop_staging, replace,
}

-- `Q` says what the target table holds as others see it, and `Loads` that besides the open COPY, if
-- there is one, is into the staging table. What each call of a load does to them is what Postgres
-- documents: the statements on the staging table leave the target alone, so does a COPY into the
-- staging table with all that it brings, a transaction shows nothing before its commit, and a commit
-- that fails shows nothing either.
pub record KeepsTarget {ℓ} {W : Type ℓ} (client : Client W) (P : Protocol) (self : Loader)
    (Q : W → Type 0) : Type (ℓ ⊔ 1) where
  pub Loads : W → Type 0
  pub kept : (w : W) → Loads w → Q w
  pub create :
      (schema : List ArrowField) (encoder : Encoder) (w : W)
      → encoder_new P schema ≡ ok encoder
      → Q w
      → Q (client.batch_execute (create_sql self.staging (declarations encoder)) w).1
  pub drop : (w : W) → Q w → Q (client.batch_execute (drop_sql self.staging) w).1
  pub copy_in : (w : W) → Q w → Loads (client.copy_in (copy_into self.staging) w).1
  pub send : (bytes : Bytes) (w : W) → Loads w → Loads (client.send bytes w).1
  pub finish : (w : W) → Loads w → Loads (client.finish w).1
  pub drop_sink : (w : W) → Loads w → Loads (client.drop_sink w)
  pub transaction : (w : W) → Q w → Q (client.transaction w).1
  pub execute_in : (w : W) → Q w → Q (client.execute_in (swap_sql self) w).1
  pub rollback : (w : W) → Q w → Q (client.rollback w)
  pub commit : (w : W) (e : AnyError) → (client.commit w).0 ≡ err e → Q w → Q (client.commit w).1

module _ {ℓ} {W : Type ℓ} (client : Client W) (P : Protocol) (self : Loader) (Q : W → Type 0)
    (laws : KeepsTarget client P self Q) where
  send-Keeps : (buf : Bytes) → Keeps laws.Loads (send client buf)
  unfolding send
  send-Keeps buf =
      bind-Keeps laws.Loads (mapped in_destination (client.send buf)) _ (laws.send buf) (λ _ w q. q)

  send_full-Keeps : (buf : Bytes) → Keeps laws.Loads (send_full client buf)
  unfolding send_full
  send_full-Keeps buf = go (leb chunk_bytes (length buf))
    where
      go : (full : Bool) → Keeps laws.Loads (if full then send client buf else pure buf)
      go true w q = send-Keeps buf w q
      go false w q = q

  write_rows-Keeps :
      (encoder : Encoder) (batch : RecordBatch) (left row : ℕ) (buf : Bytes)
      → Keeps laws.Loads (write_rows client P encoder batch left row buf)
  unfolding write_rows
  write_rows-Keeps encoder batch zero row buf w q = q
  write_rows-Keeps encoder batch (suc left) row buf w q =
      bind-Keeps laws.Loads (lift (write_row P encoder batch row buf)) _ (λ v q. q)
        (λ written.
          bind-Keeps laws.Loads (send_full client written) _ (send_full-Keeps written)
            λ buf'. write_rows-Keeps encoder batch left _ buf')
        w q

  write_batches-Keeps :
      (encoder : Encoder) (batches : BatchStream) (buf : Bytes)
      → Keeps laws.Loads (write_batches client P encoder batches buf)
  unfolding write_batches write_batch
  write_batches-Keeps encoder [] buf w q = q
  write_batches-Keeps encoder (err e ∷ batches) buf w q = q
  write_batches-Keeps encoder (ok batch ∷ batches) buf w q =
      bind-Keeps laws.Loads (write_batch client P encoder batch buf) _
        (bind-Keeps laws.Loads (lift (check encoder batch)) _ (λ w q. q)
          λ _. write_rows-Keeps encoder batch batch.num_rows 0 buf)
        (λ buf'. write_batches-Keeps encoder batches buf') w q

  finish-Keeps : (buf : Bytes) → Keeps laws.Loads (finish client buf)
  unfolding finish
  finish-Keeps buf = bind-Keeps laws.Loads (send client _) _ (send-Keeps _) (λ _. laws.finish)

  written-Keeps :
      (encoder : Encoder) (batches : BatchStream) (header : Bytes)
      → Keeps laws.Loads (
          on_error client.drop_sink
            (write_batches client P encoder batches header >>= finish client))
  written-Keeps encoder batches header =
      on_error-Keeps laws.Loads client.drop_sink laws.drop_sink
        (write_batches client P encoder batches header >>= finish client)
        (bind-Keeps laws.Loads (write_batches client P encoder batches header) (finish client)
          (write_batches-Keeps encoder batches header) finish-Keeps)

  copy-Keeps :
      (encoder : Encoder) (batches : BatchStream) → Keeps Q (copy client P self encoder batches)
  unfolding copy open_copy
  copy-Keeps encoder batches =
      bind-Through Q laws.Loads (open_copy client self.staging) _ opens laws.kept
        λ header w loads. laws.kept _ (written-Keeps encoder batches header w loads)
    where
      opens : (w : W) → Q w → laws.Loads (open_copy client self.staging w).1
      opens w q = go (client.copy_in (copy_into self.staging) w).0 (laws.copy_in w q)
        where
          go :
              (r : Result (Unit {0}) AnyError) {v : W}
              → laws.Loads v
              → laws.Loads (continue (map_err in_destination r) (λ _. pure copy_header) v).1
          go (ok _) l = l
          go (err _) l = l

  load-Keeps : (partitions : List BatchStream) → Keeps Q (load client P self partitions)
  unfolding load create_staging
  load-Keeps partitions =
      bind-Keeps Q (lift _) _ (λ w q. q)
        λ started. lift-Keeps Q (encoder_new P started.0.schema) _ λ encoder made.
          bind-Keeps Q (create_staging client P self (declarations encoder)) _
            (λ w. laws.create started.0.schema encoder w made)
            λ _. copy-Keeps encoder (ok started.0 ∷ started.1)

  commit-FailsKeeping : FailsKeeping Q (mapped in_destination client.commit)
  commit-FailsKeeping w e fails q =
      go (client.commit w).0 (λ x failed. laws.commit w x failed q) fails
    where
      go :
          (r : Result (Unit {0}) AnyError)
          → ((x : AnyError) → r ≡ err x → Q (client.commit w).1)
          → map_err in_destination r ≡ err e
          → Q (client.commit w).1
      go (ok _) p failed = absurd (cc failed)
      go (err x) p failed = p x refl

  swap-FailsKeeping : FailsKeeping Q (swap client P self)
  unfolding swap
  swap-FailsKeeping =
      bind-FailsKeeping Q (mapped in_destination client.transaction) _ laws.transaction λ _.
        bind-FailsKeeping Q (on_error client.rollback _) _
          (on_error-Keeps Q client.rollback laws.rollback _ laws.execute_in)
          λ _. commit-FailsKeeping

  replace-FailsKeeping :
      (partitions : List BatchStream) → FailsKeeping Q (replace client P self partitions)
  unfolding replace drop_staging
  replace-FailsKeeping partitions =
      on_error-FailsKeeping Q (drop_staging client P self) laws.drop _ (
        bind-FailsKeeping Q (load client P self partitions) _ (load-Keeps partitions)
          λ rows. pure-FailsKeeping Q (swap client P self) rows swap-FailsKeeping)

  -- A load that fails, wherever it fails, leaves what the target table holds as it was, over a
  -- server that leaves the target alone when the staging table is created or dropped, in a COPY
  -- into the staging table with all that it brings, in a transaction up to its commit, in a
  -- rollback, and in a commit that fails.
  pub failed_replace :
      (partitions : List BatchStream) (w : W) (e : TransferredError)
      → (replace client P self partitions w).0 ≡ err e
      → Q w
      → Q (replace client P self partitions w).1
  failed_replace = replace-FailsKeeping
