-- ===== src/Postgres/Committed.antt =====
-- A load that succeeds, for Loader::replace in crates/transferred-postgres/src/destination.rs.
use mathlib.Core.Path.{subst}
use transferred.Prelude.{ℕ, ◌≡◌, ap, ◌∙◌, List, Result, ok}
use transferred.Core.Error.{TransferredError, in_destination}
use transferred.Core.Effect.{
  ◌>>=◌, pure, mapped, on_error, bind-eq-ok, mapped-eq-ok, on_error-eq-ok,
}
use transferred.Core.Transfer.{BatchStream}
use transferred.Postgres.Protocol.{Protocol}
use transferred.Postgres.Client.{Client}
use transferred.Postgres.Destination.{Loader, load, swap, swap_sql, drop_staging, replace}

module _ {ℓ} {W : Type ℓ} (client : Client W) (P : Protocol) (self : Loader) where
  -- What a swap that succeeded went through.
  abbrev pub Swapped : W → W → Type ℓ
  Swapped w w' =
      (opened : W) × (client.transaction w ≡ (ok tt, opened))
      × (executed : W) × (client.execute_in (swap_sql self) opened ≡ (ok tt, executed))
      × (client.commit executed ≡ (ok tt, w'))

  swap-eq-ok : (w : W) {w' : W} → swap client P self w ≡ (ok tt, w') → Swapped w w'
  unfolding swap
  swap-eq-ok w h =
      let began = bind-eq-ok (mapped in_destination client.transaction) _ w h in
      let ran =
        bind-eq-ok
          (on_error client.rollback (mapped in_destination (client.execute_in (swap_sql self)))) _
          began.1 began.3 in
      (
        began.1,
        mapped-eq-ok in_destination client.transaction w began.2,
        ran.1,
        mapped-eq-ok in_destination (client.execute_in (swap_sql self)) began.1 (
            on_error-eq-ok client.rollback
              (mapped in_destination (client.execute_in (swap_sql self))) began.1 ran.2),
        mapped-eq-ok in_destination client.commit ran.1 ran.3,
      )

  -- A load that answers a number of rows has loaded the partitions with that answer, and after them
  -- run the swap inside a transaction that was committed, which is the last thing that it did.
  pub replace-Swapped :
      (partitions : List BatchStream) (w : W) {n : ℕ} {w' : W}
      → replace client P self partitions w ≡ (ok n, w')
      → (loaded : W) × (load client P self partitions w ≡ (ok n, loaded)) × Swapped loaded w'
  unfolding replace
  replace-Swapped partitions w h =
      let whole =
        on_error-eq-ok (drop_staging client P self)
          (load client P self partitions >>= λ rows. swap client P self >>= λ _. pure rows) w h in
      let one = bind-eq-ok (load client P self partitions) _ w whole in
      let two = bind-eq-ok (swap client P self) _ one.1 one.3 in
      let same = ok_pair two.3 in
      (
        one.1,
        one.2 ∙ ap (λ k. (ok k, one.1)) same.0,
        subst (Swapped one.1) same.1 (swap-eq-ok one.1 two.2),
      )
    where
      ok_pair :
          {m n : ℕ} {v v' : W}
          → ◌≡◌ {A = Result ℕ TransferredError × W} (ok m, v) (ok n, v')
          → (m ≡ n) × (v ≡ v')
      ok_pair e = (cc, cc)
