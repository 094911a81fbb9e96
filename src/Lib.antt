-- ===== src/Lib.antt =====
-- transferred moves tables as Arrow batches: a source streams partitions of batches, a destination
-- writes them, and a transfer joins the two. This development models its crates, each file by the
-- module that its first lines name.
--
-- Core/ is crates/transferred-core. Core.Error has the errors (error.rs), with a message as a list
-- of pieces; Core.Transfer the traits and the transfer (transfer.rs); Core.Report its report
-- (report.rs). Core.Arrow is the data of the arrow and geoarrow-schema crates that the program
-- matches on, and Core.Equality decides the equality of schemas. An async call is an effect
-- (Core.Effect): a function of the world into a result and the world after it, also behind an
-- error. A stream of batches is the list of what it yields; every reader stops at the first error.
--
-- Postgres/ is crates/transferred-postgres. On the way out, Connection (connection.rs) picks one of
-- the connectors of Tls (tls.rs), Source (source.rs) runs a COPY and cuts it into chunks, CopyOut
-- (source/copy_out.rs) takes rows and cells off its messages, PgToArrow, Append and Decoder
-- (source/pg_to_arrow.rs) choose each column's decoding, append its cells, and finish batches. On
-- the way in, ArrowToPg, Casts, Write and Encoder (destination/arrow_to_pg.rs) choose each column's
-- encoding, read its array, write a value and frame a row, CopyIn (destination/copy_in.rs) sends
-- the rows in chunks, and Destination (destination.rs) loads a staging table and swaps it in.
-- PgRange (pg_range.rs) and Geoarrow (geoarrow.rs) are the types of ranges and of PostGIS columns,
-- Constants the constants of lib.rs. Values, Windows, Slots, ValueReturns, RangeRoundTrip,
-- RangeColumns, ValueRoundTrip, Lanes and BatchRoundTrip are about the two directions together, a
-- value, a range, a column and a batch at a time, EndToEnd about a load in front of them, Landing
-- and SchemaRoundTrip about the types of columns, TableRoundTrip about a table that is read whole,
-- and WrittenSlices, SentRows and CopiedThrough about one that goes from Postgres to Postgres.
--
-- Files/ is crates/transferred-files: Destination (destination.rs) stages part files and renames
-- the directory, Source (source.rs) resolves its inputs, Parquet (formats/parquet.rs) is the codec,
-- and FileSystem has the traits of formats.rs. Py/ is crates/transferred-py: Error (error.rs),
-- Transfer (transfer.rs), Report (report.rs), Files and Formats (files.rs), Postgres (postgres.rs)
-- and Arrow (arrow.rs); TableTransfer is about a whole transfer from a Postgres table to Parquet,
-- TableCopy about one from Postgres to Postgres. An object of a Python class is what its
-- constructor puts into it.
--
-- Code outside the repository is a parameter: Postgres.Protocol for postgres-types,
-- postgres-protocol, arrow, chrono and rust_decimal, Postgres.Client for tokio-postgres and the
-- server, Postgres.Tls for rustls, Files.FileSystem for tokio::fs and glob, Files.Parquet for
-- parquet, Py.Report for what prints numbers. What a theorem relies on of it is a record of laws:
-- Appending.AppendsRanges, GeoTags.IsCrsMaker, Values.IsFaithful, RangeRoundTrip.CarriesRanges,
-- Chunks.Accepts, Postgres.Succeeding.Serves, FailedLoad.KeepsTarget, ParquetWriting.Takes,
-- LostOutput.Removes, Totals.Measures, Totals.CountsRows, Files.Succeeding.Performs and
-- Footer.CountsBatches. Postgres.Samples, Files.SampleWriter and the modules beside them have a
-- small instance of each, on which the Examples modules run the theorems.
--
-- Numbers are natural numbers or integers of any size; a machine width is written out where the
-- program converts, checks or adds up one. A text is the list of its bytes, a float its bit
-- pattern. Every loop of the program is a recursion over the list or the count that it runs
-- through, so none needs fuel. Where arrow would panic, past the end of an array, the model reads a
-- default; a batch has arrays of one length and the callers count its rows.
--
-- Not modelled: how pyo3 declares classes and reads arguments, the logging set-up of the bindings,
-- log lines, and time, of which a report takes what the world says.
pub mod Prelude
pub mod Core
pub mod Postgres
pub mod Files
pub mod Py
