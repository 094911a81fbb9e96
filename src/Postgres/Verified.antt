-- ===== src/Postgres/Verified.antt =====
-- Which connector a connection is made over, for `connect` in crates/transferred-postgres/src/connection.rs.
use transferred.Prelude.{◌≡◌, refl, Text, Result, ok, err, true}
use transferred.Core.Error.{AnyError}
use transferred.Postgres.Client.{Driver}
use transferred.Postgres.Connection.{
  verify_full, contains, split_verify_full, connect, connect_as, connect_over, connector_for,
  invalid_dsn,
}

module _ {ℓ} {W : Type ℓ} (driver : Driver W) (other : driver.Connector) where
  abbrev pub with_other : Driver W
  with_other = record driver { encrypting_connector = other }

  over-same :
      (config : driver.Config) (r : Result driver.Connector AnyError) (w : W)
      → connect_over with_other config r w ≡ connect_over driver config r w
  unfolding connect_over
  over-same config (ok c) w = refl
  over-same config (err e) w = refl

  as-same :
      (parsed : Result driver.Config AnyError) (w : W)
      → connect_as with_other parsed true w ≡ connect_as driver parsed true w
  unfolding connect_as connector_for invalid_dsn
  as-same (err e) w = refl
  as-same (ok config) w =
      over-same config (driver.verifying_connector w).0 (driver.verifying_connector w).1

  -- A DSN that asks for sslmode=verify-full is connected to in the same way whatever the connector
  -- is that does not verify: that connector is never used for it.
  pub connect_verified :
      (dsn : Text) (w : W)
      → contains dsn verify_full ≡ true
      → connect with_other dsn w ≡ connect driver dsn w
  unfolding connect split_verify_full
  connect_verified dsn w h = rw h (as-same _ w)
