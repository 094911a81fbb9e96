-- ===== src/Py/TableCopy.antt =====
-- A whole transfer from Postgres to Postgres: transfer.rs and postgres.rs in crates/transferred-py/src,
-- over crates/transferred-postgres.
use mathlib.Core.List.{zip, flatten}
use transferred.Prelude.{
  ℕ, ◌<◌, ◌≤◌, ◌≡◌, refl, ap, ◌∙◌, Text, codes, List, [], ◌∷◌, ◌++◌, map, none, ok, length, All,
}
use transferred.Prelude.Int.{pos}
use transferred.Prelude.Bytes.{Bytes, be_i16}
use transferred.Core.Arrow.{ArrowField, RecordBatch}
use transferred.Core.Report.{RunReport}
use transferred.Core.Transfer
use transferred.Core.Transfer.{BatchStream}
use transferred.Postgres.Constants.{copy_header, copy_trailer}
use transferred.Postgres.Protocol.{Protocol, PgColumn}
use transferred.Postgres.Geoarrow.{CrsMaker}
use transferred.Postgres.Client.{Client, Driver}
use transferred.Postgres.Connection.{connect}
use transferred.Postgres.CopiedRows.{copied_out}
use transferred.Postgres.Decoder.{derive}
use transferred.Postgres.Encoder.{Encoder, encoder_new}
use transferred.Postgres.EncoderShape.{encoder_new-IsEncoderOf}
use transferred.Postgres.Source as Reading
use transferred.Postgres.Destination as Writing
use transferred.Postgres.Destination.{Loader, loader_new, replace}
use transferred.Postgres.Appending.{AppendsRanges}
use transferred.Postgres.Chunks.{Accepts, copy_into}
use transferred.Postgres.Committed.{Swapped}
use transferred.Postgres.Succeeding.{Serves}
use transferred.Postgres.Values.{IsFaithful}
use transferred.Postgres.RangeRoundTrip.{CarriesRanges}
use transferred.Postgres.Lanes.{
  Lane, IsLane, reader_at, written_column, written_rows, slices, zip-map, length_encoders,
}
use transferred.Postgres.TableRoundTrip.{stream_partitions-Slices}
use transferred.Postgres.CopiedThrough.{IsSlice, replace-Slices}
use transferred.Py.Report
use transferred.Py.Transfer.{PyTransfer, new, run, mapped_report, source_init, destination_init}
use transferred.Py.Postgres as PyPostgres

module _ {ℓ} {W : Type ℓ} (P : Protocol) (laws : IsFaithful P) (appends : AppendsRanges P)
    (carries : CarriesRanges P) (reading writing : Client W) (maker : CrsMaker)
    (from_driver to_driver : Driver W) (server : Accepts writing) (serves : Serves writing)
    (elapsed : W → W → ℕ) where
  -- Over crates whose writers and readers are inverse, range writers that append and whose ranges
  -- parse as their bounds, arrow building of a schema and the rows of columns from any one on and
  -- up to any other a batch of just those, and a server written to that takes everything it is sent
  -- and runs every statement: where a schema has an encoder of fewer than 20551 columns, which hold
  -- some rows of values that Postgres can hold, ranges too whose bounds are neither texts nor
  -- bytes, and a server read from, once connected to, answers columns that the source's decoder has
  -- that schema and the matching decodings for, and a COPY of the messages that those rows are
  -- written as, and the server written to is connected to and the target's name is taken, a
  -- Transfer that Python builds of a PostgresSource and a PostgresDestination and runs succeeds: a
  -- COPY into the staging table has brought the header, the same messages in their order and the
  -- trailer, whatever batches they went through, the swap was then committed, and the report names
  -- the target.
  pub run-copied :
      (n : ℕ) (encoder : Encoder) (batch : RecordBatch) (lanes : List Lane)
      (schema : List ArrowField) (batch_of : ℕ → ℕ → RecordBatch)
      (dsn name table to_dsn to_table : Text) (answered : List PgColumn) (messages : List Bytes)
      (loader : Loader) (w connected resolved prepared copied joined ready : W)
      → encoder_new P schema ≡ ok encoder
      → encoder.columns ≡ map (λ (lane : Lane). lane.encoder) lanes
      → batch.columns ≡ map (λ (lane : Lane). lane.array) lanes
      → length lanes < 20551
      → All (IsLane P n) lanes
      → ((from to : ℕ)
          → from ≤ to
          → to ≤ n
          → P.try_new_batch schema (slices from to lanes) ≡ ok (batch_of from to))
      → ((from to : ℕ) → from ≤ to → to ≤ n → IsSlice schema lanes from to (batch_of from to))
      → 0 < n
      → written_rows P encoder batch n 0 ≡ ok messages
      → derive P maker answered
        ≡ ok (record { schema = schema; decoders = map (reader_at 0 0) lanes })
      → connect from_driver dsn w ≡ (ok tt, connected)
      → reading.regclass name connected ≡ (ok table, resolved)
      → reading.prepare (codes "select * from " ++ table) resolved ≡ (ok answered, prepared)
      → reading.copy_out
          (codes "copy (select * from " ++ (table ++ codes ") to stdout (format binary)"))
          prepared
        ≡ (ok (copied_out messages), copied)
      → connect to_driver to_dsn copied ≡ (ok tt, joined)
      → loader_new writing P to_table joined ≡ (ok loader, ready)
      → (transfer : PyTransfer W) × (report : RunReport) × (loaded : W) × (w' : W) × ((new
            (PyPostgres.new_source P reading from_driver maker dsn name)
            (PyPostgres.new_destination P writing to_driver elapsed to_dsn to_table)).0
          ≡ ok transfer)
        × (run transfer w ≡ (ok (Report.new report), record { inner = none }, w'))
        × (report.written_objects ≡ loader.target ∷ [])
        × (server.sent loaded
            ≡ (copy_into loader.staging, (copy_header ++ flatten messages) ++ be_i16 copy_trailer))
        × Swapped writing P loader loaded w'
  unfolding new run mapped_report source_init destination_init Transfer.run Transfer.new
      PyPostgres.new_source PyPostgres.new_destination PyPostgres.boxed_source
      PyPostgres.boxed_destination Reading.new Writing.new Writing.write_partitions
  run-copied n encoder batch lanes schema batch_of dsn name table to_dsn to_table answered messages
        loader w connected resolved prepared copied joined ready made encoders arrays few all built
        shaped some_rows wrote derived connects resolves prepares copies joins loads =
      let (_, _, counted, _, _) = encoder_new-IsEncoderOf P schema encoder made in
      let many : length encoder.columns ≡ length lanes =
        ap length encoders ∙ length_encoders lanes in
      let columns : zip encoder.columns batch.columns ≡ map written_column lanes =
        rw (encoders, arrays) (zip-map lanes) in
      let (stream, streams, cut) =
        stream_partitions-Slices P laws appends carries n encoder batch lanes columns
          (counted ∙ ap pos many) few all schema batch_of built reading maker from_driver
          (Reading.new dsn name) table answered messages w connected resolved prepared copied wrote
          derived connects resolves prepares copies in
      let (rows, loaded, w', replaced, sent, swapped) =
        replace-Slices P n encoder batch lanes schema batch_of made encoders arrays all shaped
          writing server serves appends loader messages ready wrote some_rows cut in
      (
        _,
        record {
          rows = rows;
          bytes_written = 0;
          written_objects = loader.target ∷ [];
          duration = elapsed copied w';
        },
        loaded,
        w',
        refl,
        rw (streams, joins, loads, replaced) refl,
        refl,
        sent,
        swapped,
      )
