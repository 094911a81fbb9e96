-- ===== src/Py/Arrow.antt =====
-- crates/transferred-py/src/arrow.rs: an Arrow C stream as a source of one partition.
use transferred.Prelude.{List, [], ◌∷◌, map, Result, ok, err}
use transferred.Core.Error.{AnyError, TransferredError, arrow}
use transferred.Core.Effect.{Effect, pure}
use transferred.Core.Arrow.{RecordBatch}
use transferred.Core.Transfer.{BatchStream, Source}
use transferred.Py.Error.{PyErr}
use transferred.Py.Transfer.{PySource, source_init}

-- What the reader will yield.
pub record ArrowSource : Type 0 where
  pub reader : List (Result RecordBatch AnyError)

-- One `poll_next` that is ready with an item.
polled : Result RecordBatch AnyError → Result RecordBatch TransferredError
polled (ok batch) = ok batch
polled (err e) = err (arrow e)

unfoldable pub stream_partitions {ℓ} : {W : Type ℓ} → ArrowSource → Effect W (List BatchStream)
unfolding polled
stream_partitions self = pure (map polled self.reader ∷ [])

-- `impl Source for ArrowSource`
unfoldable pub boxed_source {ℓ} : {W : Type ℓ} → ArrowSource → Source W
boxed_source self = record { stream_partitions = stream_partitions self }

-- `PyArrowSource::new`, of what `ArrowArrayStreamReader::from_pyarrow_bound` answers.
unfoldable pub new_source {ℓ} :
    {W : Type ℓ} → Result (List (Result RecordBatch AnyError)) PyErr → Result (PySource W) PyErr
unfolding boxed_source
new_source (err e) = err e
new_source (ok reader) = ok (source_init (boxed_source (record { reader = reader })))
