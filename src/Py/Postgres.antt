-- ===== src/Py/Postgres.antt =====
-- crates/transferred-py/src/postgres.rs: the Postgres classes, as the objects that they are built with.
use transferred.Prelude.{ℕ, Text}
use transferred.Core.Transfer.{Source, Destination}
use transferred.Postgres.Protocol.{Protocol}
use transferred.Postgres.Geoarrow.{CrsMaker}
use transferred.Postgres.Client.{Client, Driver}
use transferred.Postgres.Source as Reading
use transferred.Postgres.Source.{PostgresSource}
use transferred.Postgres.Destination as Writing
use transferred.Postgres.Destination.{PostgresDestination}
use transferred.Py.Transfer.{PySource, PyDestination, source_init, destination_init}

module _ {ℓ} {W : Type ℓ} (P : Protocol) (client : Client W) (driver : Driver W) where
  -- `impl Source for PostgresSource`, `impl Destination for PostgresDestination`
  unfoldable pub boxed_source : CrsMaker → PostgresSource → Source W
  boxed_source maker self = record {
    stream_partitions = Reading.stream_partitions P client maker driver self;
  }

  unfoldable pub boxed_destination : (W → W → ℕ) → PostgresDestination → Destination W
  boxed_destination elapsed self = record {
    write_partitions = Writing.write_partitions client P driver elapsed self;
  }

  -- `PyPostgresSource::new`
  unfoldable pub new_source : CrsMaker → Text → Text → PySource W
  unfolding boxed_source
  new_source maker dsn table = source_init (boxed_source maker (Reading.new dsn table))

  -- `PyPostgresDestination::new`
  unfoldable pub new_destination : (W → W → ℕ) → Text → Text → PyDestination W
  unfolding boxed_destination
  new_destination elapsed dsn table =
      destination_init (boxed_destination elapsed (Writing.new dsn table))
