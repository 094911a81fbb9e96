-- ===== src/Files/ParquetWriting.antt =====
-- What a stream becomes in a Parquet file, for crates/transferred-files/src/formats/parquet.rs.
use transferred.Prelude.{ℕ, ◌<◌, ◌≡◌, refl, sym, ◌∙◌, All, List, [], ◌∷◌, ◌++◌, map, ok, err, arith}
use transferred.Prelude.Int.{pos}
use transferred.Core.Error.{TransferredError}
use transferred.Core.Arrow.{ArrowField, RecordBatch}
use transferred.Core.Transfer.{BatchStream}
use transferred.Files.Paths.{FilePath}
use transferred.Files.Parquet.{
  ParquetFiles, ParquetCompression, Compression, zstd, snappy, uncompressed, zstd_default,
  snappy_codec, uncompressed_codec, parquet_compression, write, write_all, to_u64,
}

-- The codec that each choice of the library stands for, as parquet.rs documents it.
pub data IsCodecOf : Compression → ParquetCompression → Type 0 where
  as_zstd : IsCodecOf zstd zstd_default
  as_snappy : IsCodecOf snappy snappy_codec
  as_uncompressed : IsCodecOf uncompressed uncompressed_codec

pub parquet_compression-IsCodecOf :
    (compression : Compression) → IsCodecOf compression (parquet_compression compression)
unfolding parquet_compression
parquet_compression-IsCodecOf zstd = as_zstd
parquet_compression-IsCodecOf snappy = as_snappy
parquet_compression-IsCodecOf uncompressed = as_uncompressed

codec_only :
    {compression : Compression} {chosen : ParquetCompression}
    → IsCodecOf compression chosen
    → parquet_compression compression ≡ chosen
unfolding parquet_compression
codec_only as_zstd = refl
codec_only as_snappy = refl
codec_only as_uncompressed = refl

-- A writer without failures but of the types that the crate does not write: of a schema that is
-- writable, which is for the crate to say (one with an interval is not), it opens a file, and takes
-- the batches of that schema. Where it stands after opening a file, after a batch, and after closing,
-- the schema of the open file, and the rows that it counts, which an `i64` holds.
pub record Takes {ℓ} {W : Type ℓ} (parquet : ParquetFiles W) : Type (ℓ ⊔ 1) where
  pub IsWritable : List ArrowField → Type 0
  pub schema_of : W → List ArrowField
  pub opened : FilePath → List ArrowField → ParquetCompression → W → W
  pub after : RecordBatch → W → W
  pub count : W → ℕ
  pub closed : W → W
  pub try_new_lem :
      (path : FilePath) (schema : List ArrowField) (compression : ParquetCompression) (w : W)
      → IsWritable schema
      → parquet.try_new path schema compression w ≡ (ok tt, opened path schema compression w)
  pub schema_of-opened :
      (path : FilePath) (schema : List ArrowField) (compression : ParquetCompression) (w : W)
      → schema_of (opened path schema compression w) ≡ schema
  pub write_batch_lem :
      (batch : RecordBatch) (w : W)
      → IsWritable batch.schema
      → batch.schema ≡ schema_of w
      → parquet.write_batch batch w ≡ (ok tt, after batch w)
  pub schema_of-after : (batch : RecordBatch) (w : W) → schema_of (after batch w) ≡ schema_of w
  pub close_lem : (w : W) → parquet.close w ≡ (ok (pos (count w)), closed w)
  pub few : (w : W) → count w < 9223372036854775808

module _ {ℓ} {W : Type ℓ} (parquet : ParquetFiles W) (takes : Takes parquet) where
  -- The writer after the batches, in their order.
  abbrev pub after_all : List RecordBatch → W → W
  after_all [] w = w
  after_all (batch ∷ batches) w = after_all batches (takes.after batch w)

  abbrev pub AllOf : List ArrowField → List RecordBatch → Type 0
  AllOf schema batches = All (λ (batch : RecordBatch). batch.schema ≡ schema) batches

  -- Batches of the schema of the open file.
  module _ (schema : List ArrowField) (writable : takes.IsWritable schema) where
    write_batch-of :
        (batch : RecordBatch) (w : W)
        → batch.schema ≡ schema
        → takes.schema_of w ≡ schema
        → (parquet.write_batch batch w ≡ (ok tt, takes.after batch w))
          × (takes.schema_of (takes.after batch w) ≡ schema)
    write_batch-of batch w of_schema unclosed = (
      takes.write_batch_lem batch w (rw of_schema writable) (of_schema ∙ sym unclosed),
      takes.schema_of-after batch w ∙ unclosed,
    )

    write_all-ok :
        (batches : List RecordBatch) (w : W)
        → AllOf schema batches
        → takes.schema_of w ≡ schema
        → write_all parquet (map ok batches) w ≡ (ok tt, after_all batches w)
    unfolding write_all
    write_all-ok [] w all unclosed = refl
    write_all-ok (batch ∷ batches) w (one, all) unclosed =
        let (wrote, still) = write_batch-of batch w one unclosed in
        rw wrote (write_all-ok batches (takes.after batch w) all still)

    write_all-err :
        (batches : List RecordBatch) (e : TransferredError) (rest : BatchStream) (w : W)
        → AllOf schema batches
        → takes.schema_of w ≡ schema
        → write_all parquet (map ok batches ++ err e ∷ rest) w ≡ (err e, after_all batches w)
    unfolding write_all
    write_all-err [] e rest w all unclosed = refl
    write_all-err (batch ∷ batches) e rest w (one, all) unclosed =
        let (wrote, still) = write_batch-of batch w one unclosed in
        rw wrote (write_all-err batches e rest (takes.after batch w) all still)

  to_u64-pos : (n : ℕ) → n < 9223372036854775808 → to_u64 (pos n) ≡ ok n
  unfolding to_u64
  to_u64-pos n h = ground arith

  -- With a writer that takes the batches of a schema that it can write, a stream of batches of one
  -- such schema is written to a file of that schema and of the codec that the library's choice of a
  -- compression names, zstd at its default level, snappy or none: all its batches in order and then
  -- the footer, whose row count is the answer, or, where an error comes, the batches in front of it
  -- and no footer, and the error is the answer.
  pub write-ok_or_err :
      (compression : Compression) (chosen : ParquetCompression) (path : FilePath)
      (first : RecordBatch) (batches : List RecordBatch) (e : TransferredError) (rest : BatchStream)
      (w : W)
      → IsCodecOf compression chosen
      → takes.IsWritable first.schema
      → AllOf first.schema batches
      → (write parquet compression path (map ok (first ∷ batches)) w ≡ (
        ok (takes.count (after_all (first ∷ batches) (takes.opened path first.schema chosen w))),
        takes.closed (after_all (first ∷ batches) (takes.opened path first.schema chosen w)),
      ))
        × (write parquet compression path (map ok (first ∷ batches) ++ err e ∷ rest) w
            ≡ (err e, after_all (first ∷ batches) (takes.opened path first.schema chosen w)))
  unfolding write
  write-ok_or_err compression chosen path first batches e rest w named writable all =
      let opened = takes.opened path first.schema chosen w in
      let after = after_all (first ∷ batches) opened in
      let unclosed = takes.schema_of-opened path first.schema chosen w in
      (
        rw (codec_only named, takes.try_new_lem path first.schema chosen w writable)
            (rw (write_all-ok first.schema writable (first ∷ batches) opened (refl, all) unclosed) (
              rw (takes.close_lem after)
                (rw (to_u64-pos (takes.count after) (takes.few after)) refl))),
        rw (codec_only named, takes.try_new_lem path first.schema chosen w writable)
            (rw
              (write_all-err first.schema writable (first ∷ batches) e rest opened (refl, all)
                unclosed)
              refl),
      )
