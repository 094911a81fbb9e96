-- ===== src/Py/TableTransfer.antt =====
-- A whole transfer from Postgres to Parquet: transfer.rs, postgres.rs and files.rs in
-- crates/transferred-py/src, over the crates that they call.
use mathlib.Core.List.{zip}
use transferred.Prelude.{
  ℕ, ◌+◌, ◌-◌, ◌<◌, ◌≤◌, ◌≡◌, refl, ap, sym, ◌∙◌, Text, codes, List, [], ◌∷◌, ◌++◌, map, join,
  Result, ok, err, arith, length, All, Bool,
}
use transferred.Prelude.Int.{pos}
use transferred.Prelude.Bytes.{Bytes}
use transferred.Core.Error.{empty_source}
use transferred.Core.Arrow.{ArrowField, RecordBatch}
use transferred.Core.Report.{RunReport}
use transferred.Core.Transfer
use transferred.Core.Transfer.{BatchStream, Source}
use transferred.Postgres.Protocol.{Protocol, PgColumn}
use transferred.Postgres.Geoarrow.{CrsMaker}
use transferred.Postgres.Client.{Client, Driver}
use transferred.Postgres.Connection.{connect}
use transferred.Postgres.CopiedRows.{copied_out}
use transferred.Postgres.Decoder.{derive}
use transferred.Postgres.Encoder.{Encoder}
use transferred.Postgres.Source as Reading
use transferred.Postgres.Appending.{AppendsRanges}
use transferred.Postgres.Values.{IsFaithful}
use transferred.Postgres.RangeRoundTrip.{CarriesRanges}
use transferred.Postgres.Lanes.{Lane, IsLane, reader_at, written_column, written_rows, slices}
use transferred.Postgres.TableRoundTrip.{
  Slices, no_rows, rows_then, Slices-le, stream_partitions-Slices,
}
use transferred.Files.Paths.{FilePath}
use transferred.Files.FileSystem.{FileSystem}
use transferred.Files.Parquet.{
  ParquetFiles, ParquetCompression, Compression, parquet_compression, codec, reader,
}
use transferred.Files.Parquet
use transferred.Files.Footer.{CountsBatches, rows_in, count-after_all}
use transferred.Files.ParquetWriting.{Takes}
use transferred.Files.Destination.{output_filename, make_tmp}
use transferred.Files.Totals.{Measures}
use transferred.Files.Succeeding.{
  Performs, to_parquet, write_partitions_empty, write_partitions-one,
}
use transferred.Py.Error.{PyErr, to_pyerr}
use transferred.Py.Report
use transferred.Py.Report.{PyRunReport}
use transferred.Py.Transfer.{
  PyTransfer, PyDestination, new, run, mapped_report, source_init, destination_init,
}
use transferred.Py.Postgres as PyPostgres
use transferred.Py.Formats as PyFiles

-- How the transfer of a table of so many rows ends: without a row in an error, with rows in one object.
pub data Ends (n : ℕ) (object : Text) : Result PyRunReport PyErr → Type 0 where
  nothing : n ≡ 0 → Ends n object (err (to_pyerr empty_source))
  moved :
      (report : RunReport)
      → 0 < n
      → report.rows ≡ n
      → report.written_objects ≡ object ∷ []
      → Ends n object (ok (Report.new report))

-- A batch of a schema and of as many rows as there are from one to another.
abbrev pub IsSized : List ArrowField → ℕ → ℕ → RecordBatch → Type 0
IsSized schema from to batch = (batch.schema ≡ schema) × (batch.num_rows ≡ to - from)

-- The batches of a table, none empty, have all of its rows and its schema.
Slices-rows :
    (schema : List ArrowField) (batch_of : ℕ → ℕ → RecordBatch) (to from : ℕ)
    {batches : BatchStream}
    → ((a b : ℕ) → a ≤ b → b ≤ to → IsSized schema a b (batch_of a b))
    → Slices batch_of to from batches
    → (found : List RecordBatch) × (batches ≡ map ok found)
      × (from + rows_in found ≡ to)
      × All (λ (batch : RecordBatch). 0 < batch.num_rows) found
      × All (λ (batch : RecordBatch). batch.schema ≡ schema) found
Slices-rows schema batch_of to from sized no_rows = ([], refl, omega arith, tt, tt)
Slices-rows schema batch_of to from sized (rows_then _ mid lt most rest) =
    let le = Slices-le batch_of to mid rest in
    let (found, same, rows, some_rows, all) = Slices-rows schema batch_of to mid sized rest in
    let (of_schema, here) = sized from mid (omega arith) le in
    (
      batch_of from mid ∷ found,
      ap (λ s. ok (batch_of from mid) ∷ s) same,
      omega (arith, here, rows),
      (omega (arith, here), some_rows),
      (of_schema, all),
    )

module _ {ℓ} {W : Type ℓ} (fs : FileSystem W) (performs : Performs fs) (measures : Measures fs)
    (parquet : ParquetFiles W) (takes : Takes parquet) (footer : CountsBatches takes)
    (compression : Compression) (path : FilePath) (single_file : Bool) (elapsed : W → W → ℕ) where
  abbrev part_file : Text
  part_file = join (codes "/") (
      path
      ++ output_filename
          (to_parquet fs performs measures parquet takes compression path single_file) 1
        ∷ [])

  abbrev parquet_destination : PyDestination W
  parquet_destination =
      PyFiles.new_destination fs elapsed path
        (PyFiles.init (reader parquet) (codec parquet (Parquet.new compression))) single_file

  -- Of any source that yields one stream.
  run-Ends :
      (source : Source W) (schema : List ArrowField) (batches : List RecordBatch) (w copied : W)
      (n : ℕ)
      → source.stream_partitions w ≡ (ok (map ok batches ∷ []), copied)
      → rows_in batches ≡ n
      → n < 9223372036854775808
      → All (λ (batch : RecordBatch). 0 < batch.num_rows) batches
      → All (λ (batch : RecordBatch). batch.schema ≡ schema) batches
      → takes.IsWritable schema
      → (transfer : PyTransfer W) × ((new (source_init source) parquet_destination).0 ≡ ok transfer)
        × Ends n part_file (run transfer w).0
  unfolding new run mapped_report source_init destination_init Transfer.run Transfer.new
      PyFiles.new_destination PyFiles.init
  run-Ends source schema [] w copied n streams rows few some_rows all writable = (
    _,
    refl,
    rw
        (
          streams,
          write_partitions_empty fs performs measures parquet takes compression path single_file
              elapsed copied,
        )
        (nothing (sym rows)),
  )
  run-Ends source schema (first ∷ rest) w copied n streams rows few (a_row, some_rows) (same, all)
        writable =
      let (report, opening, wrote, counted, named) =
        write_partitions-one fs performs measures parquet takes compression path single_file elapsed
          first rest copied (rw same writable) (rw same all) in
      let file =
        make_tmp path
        ++ output_filename
            (to_parquet fs performs measures parquet takes compression path single_file) 1
          ∷ [] in
      let opened = takes.opened file first.schema (parquet_compression compression) opening in
      let zero_rows =
        footer.opened_lem file first.schema (parquet_compression compression) opening in
      let all =
        count-after_all parquet takes footer (first ∷ rest) opened
          (omega (arith, zero_rows, rows)) in
      (
        _,
        refl,
        rw (streams, wrote)
            (moved report (omega (arith, rows)) (counted ∙ all ∙ omega (arith, zero_rows, rows))
              named),
      )

  module _ (P : Protocol) (laws : IsFaithful P) (appends : AppendsRanges P)
      (carries : CarriesRanges P) (n : ℕ) (encoder : Encoder) (batch : RecordBatch)
      (lanes : List Lane) (columns : zip encoder.columns batch.columns ≡ map written_column lanes)
      (count : encoder.field_count ≡ pos (length lanes)) (few : length lanes < 20551)
      (all : All (IsLane P n) lanes) (schema : List ArrowField) (batch_of : ℕ → ℕ → RecordBatch)
      (built : (from to : ℕ)
        → from ≤ to
        → to ≤ n
        → P.try_new_batch schema (slices from to lanes) ≡ ok (batch_of from to))
      (sized : (from to : ℕ) → from ≤ to → to ≤ n → IsSized schema from to (batch_of from to))
      (writable : takes.IsWritable schema) (client : Client W) (maker : CrsMaker)
      (driver : Driver W) where
    -- Over crates whose writers and readers are inverse, range writers that append and whose ranges
    -- parse as their bounds, arrow building of a schema and the rows of columns a batch of that
    -- schema and of as many rows, a file system that does what it is asked for and reads a file's
    -- length without changing anything, and a Parquet writer that takes the batches of a schema
    -- that it can write, and counts their rows: where the schema of the table's batches is one that
    -- the writer can write, an encoder announces as many columns as a batch has, fewer than 20551,
    -- which hold fewer than 2^63 rows of values that Postgres can hold, ranges too whose bounds are
    -- neither texts nor bytes, and a server that is connected to answers columns that the source's
    -- decoder has that schema and the matching decodings for, and a COPY of the messages that those
    -- rows are written as, a Transfer that Python builds of a PostgresSource and a FilesDestination
    -- of Parquet, one file or many, and runs ends with a report of all the table's rows in one
    -- object, the first file, or, if the table has no row, in the exception of EmptySource.
    pub run-table :
        (dsn name table : Text) (answered : List PgColumn) (messages : List Bytes)
        (w connected resolved prepared copied : W)
        → n < 9223372036854775808
        → written_rows P encoder batch n 0 ≡ ok messages
        → derive P maker answered
          ≡ ok (record { schema = schema; decoders = map (reader_at 0 0) lanes })
        → connect driver dsn w ≡ (ok tt, connected)
        → client.regclass name connected ≡ (ok table, resolved)
        → client.prepare (codes "select * from " ++ table) resolved ≡ (ok answered, prepared)
        → client.copy_out
            (codes "copy (select * from " ++ (table ++ codes ") to stdout (format binary)"))
            prepared
          ≡ (ok (copied_out messages), copied)
        → (transfer : PyTransfer W) × ((new
              (PyPostgres.new_source P client driver maker dsn name)
              parquet_destination).0
            ≡ ok transfer)
          × Ends n part_file (run transfer w).0
    unfolding PyPostgres.new_source PyPostgres.boxed_source Reading.new
    run-table dsn name table answered messages w connected resolved prepared copied fits wrote
          derived connects resolves prepares copies =
        let source = PyPostgres.boxed_source P client driver maker (Reading.new dsn name) in
        let (stream, streams, cut) =
          stream_partitions-Slices P laws appends carries n encoder batch lanes columns count few
            all schema batch_of built client maker driver (Reading.new dsn name) table answered
            messages w connected resolved prepared copied wrote derived connects resolves prepares
            copies in
        let (batches, same, rows, some_rows, of_schema) =
          Slices-rows schema batch_of n 0 sized cut in
        run-Ends source schema batches w copied n (rw same at streams) (omega (arith, rows)) fits
          some_rows of_schema writable
