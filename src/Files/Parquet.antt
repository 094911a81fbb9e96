-- ===== src/Files/Parquet.antt =====
-- crates/transferred-files/src/formats/parquet.rs: the codec over the `parquet` crate, a parameter.
use transferred.Prelude.{
  ℕ, codes, List, [], ◌∷◌, Result, ok, err, map_err, map, ◌^◌, ltb, if◌then◌else◌,
}
use transferred.Prelude.Int.{ℤ, pos, negsuc}
use transferred.Core.Error.{
  lit, foreign, root, AnyError, Outcome, TransferredError, in_destination, empty_source,
  source_failed,
}
use transferred.Core.Effect.{Effect, pure, raise, lift, mapped, ◌>>=◌, ◌>>◌}
use transferred.Core.Arrow.{ArrowField, RecordBatch}
use transferred.Core.Transfer.{BatchStream}
use transferred.Files.Paths.{FilePath}
use transferred.Files.FileSystem.{FormatWrite, FormatRead}

pub data Compression : Type 0 where
  zstd snappy uncompressed : Compression

-- `parquet::basic::Compression`, by the codecs that this one maps to.
pub data ParquetCompression : Type 0 where
  zstd_default snappy_codec uncompressed_codec : ParquetCompression

-- The struct `Parquet`.
pub record Parquet : Type 0 where
  pub compression : Compression

unfoldable pub new : Compression → Parquet
new compression = record { compression = compression }

unfoldable pub parquet_compression : Compression → ParquetCompression
parquet_compression zstd = zstd_default
parquet_compression snappy = snappy_codec
parquet_compression uncompressed = uncompressed_codec

-- `AsyncArrowWriter` and `ParquetRecordBatchStreamBuilder`; the row count of a footer is an `i64`.
pub record ParquetFiles {ℓ} (W : Type ℓ) : Type ℓ where
  pub try_new : FilePath → List ArrowField → ParquetCompression → W → Result (Unit {0}) AnyError × W
  pub write_batch : RecordBatch → W → Result (Unit {0}) AnyError × W
  pub close : W → Result ℤ AnyError × W
  pub reader_new : FilePath → W → Result (Unit {0}) AnyError × W
  pub reader_build : W → Result (List (Result RecordBatch AnyError)) AnyError × W

unfoldable pub to_u64 : ℤ → Outcome ℕ
to_u64 (pos n) =
    if ltb n (2 ^ 64)
    then ok n
    else err (in_destination (root (foreign "the TryFromIntError" ∷ [])))
to_u64 (negsuc n) = err (in_destination (root (foreign "the TryFromIntError" ∷ [])))

module _ {ℓ} {W : Type ℓ} (parquet : ParquetFiles W) where
  unfoldable pub write_all : BatchStream → Effect W (Unit {0})
  write_all [] = pure tt
  write_all (err e ∷ batches) = raise e
  write_all (ok batch ∷ batches) = do
    mapped in_destination (parquet.write_batch batch)
    write_all batches

  unfoldable pub write : Compression → FilePath → BatchStream → Effect W ℕ
  unfolding write_all to_u64
  write compression path [] = raise empty_source
  write compression path (err e ∷ batches) = raise e
  write compression path (ok first ∷ batches) = do
    mapped in_destination (parquet.try_new path first.schema (parquet_compression compression))
    write_all (ok first ∷ batches)
    rows ← mapped in_destination parquet.close
    lift (to_u64 rows)

  read_failed : AnyError → TransferredError
  read_failed e = source_failed (lit "parquet read: " ∷ foreign "the ParquetError" ∷ [])

  unfoldable pub read : FilePath → Effect W BatchStream
  unfolding read_failed
  read path = do
    mapped
        (λ (e : AnyError).
          source_failed (lit "parquet reader init: " ∷ foreign "the ParquetError" ∷ []))
        (parquet.reader_new path)
    items ←
        mapped
          (λ (e : AnyError).
            source_failed (lit "parquet reader build: " ∷ foreign "the ParquetError" ∷ []))
          parquet.reader_build
    pure (map (λ item. map_err read_failed item) items)

  unfoldable pub codec : Parquet → FormatWrite W
  unfolding write
  codec self = record { file_extension = codes "parquet"; write = write self.compression }

  unfoldable pub reader : FormatRead W
  unfolding read
  reader = record { read = read }
