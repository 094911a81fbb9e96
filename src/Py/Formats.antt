-- ===== src/Py/Formats.antt =====
-- crates/transferred-py/src/files.rs: the file classes, as the objects that they are built with.
use transferred.Prelude.{ℕ, Text, Option, Result, ok, err, Bool}
use transferred.Core.Transfer.{Source, Destination}
use transferred.Files.Paths.{FilePath}
use transferred.Files.FileSystem.{FileSystem, FormatRead, FormatWrite}
use transferred.Files.Parquet.{ParquetFiles, Compression, new, codec, reader}
use transferred.Files.Source as Reading
use transferred.Files.Source.{FilesSource}
use transferred.Files.Destination as Writing
use transferred.Files.Destination.{FilesDestination}
use transferred.Py.Error.{PyErr}
use transferred.Py.Files.{PathArg, inputs_of, parse_compression}
use transferred.Py.Transfer.{PySource, PyDestination, source_init, destination_init}

pub record PyFormat {ℓ} (W : Type ℓ) : Type ℓ where
  pub read : FormatRead W
  pub write : FormatWrite W

module _ {ℓ} {W : Type ℓ} where
  -- `PyFormat::init`: one codec, by its two traits.
  unfoldable pub init : FormatRead W → FormatWrite W → PyFormat W
  init read write = record { read = read; write = write }

  parquet_of : ParquetFiles W → Result Compression PyErr → Result (PyFormat W) PyErr
  unfolding init new
  parquet_of parquet (err e) = err e
  parquet_of parquet (ok compression) = ok (init (reader parquet) (codec parquet (new compression)))

  -- `PyParquet::new`
  unfoldable pub new_parquet : ParquetFiles W → Option Text → Result (PyFormat W) PyErr
  unfolding parquet_of
  new_parquet parquet compression = parquet_of parquet (parse_compression compression)

  -- `impl Source for FilesSource`, `impl Destination for FilesDestination`
  unfoldable pub boxed_source : FileSystem W → FilesSource W → Source W
  boxed_source fs self = record { stream_partitions = Reading.stream_partitions fs self }

  unfoldable pub boxed_destination : FileSystem W → (W → W → ℕ) → FilesDestination W → Destination W
  boxed_destination fs elapsed self = record {
    write_partitions = Writing.write_partitions fs self elapsed;
  }

  -- `PyFilesSource::new`
  unfoldable pub new_source : FileSystem W → PathArg → PyFormat W → PySource W
  unfolding boxed_source
  new_source fs path format =
      source_init (boxed_source fs (Reading.new (inputs_of path) format.read))

  -- `PyFilesDestination::new`
  unfoldable pub new_destination :
      FileSystem W → (W → W → ℕ) → FilePath → PyFormat W → Bool → PyDestination W
  unfolding boxed_destination
  new_destination fs elapsed path format single_file =
      destination_init (boxed_destination fs elapsed (Writing.new path format.write single_file))
