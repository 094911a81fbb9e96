-- ===== src/Files.antt =====
-- crates/transferred-files: the local file source and destination, and the Parquet codec.
pub mod FileSystem
pub mod Paths
pub mod Destination
pub mod Source
pub mod Parquet
pub mod Resolving
pub mod PartFiles
pub mod Totals
pub mod Reporting
pub mod Succeeding
pub mod Footer
pub mod ParquetWriting
mod Examples
pub mod LostOutput
pub mod SampleWriter
