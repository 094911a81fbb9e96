-- ===== src/Core/Transfer.antt =====
-- crates/transferred-core/src/transfer.rs. A stream of batches is the list of what it will yield;
-- the program reads no further than the first error.
use transferred.Prelude.{List, Result}
use transferred.Core.Error.{TransferredError}
use transferred.Core.Effect.{Effect, ◌>>=◌}
use transferred.Core.Arrow.{RecordBatch}
use transferred.Core.Report.{RunReport}

abbrev pub BatchStream : Type 0
BatchStream = List (Result RecordBatch TransferredError)

pub record Source {ℓ} (W : Type ℓ) : Type ℓ where
  pub stream_partitions : Effect W (List BatchStream)

pub record Destination {ℓ} (W : Type ℓ) : Type ℓ where
  pub write_partitions : List BatchStream → Effect W RunReport

pub record Transfer {ℓ} (W : Type ℓ) : Type ℓ where
  pub source : Source W
  pub destination : Destination W

module _ {ℓ} {W : Type ℓ} where
  unfoldable pub new : Source W → Destination W → Transfer W
  new source destination = record { source = source; destination = destination }

  unfoldable pub run : Transfer W → Effect W RunReport
  run self = do
    partitions ← self.source.stream_partitions
    self.destination.write_partitions partitions
