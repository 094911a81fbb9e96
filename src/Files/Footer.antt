-- ===== src/Files/Footer.antt =====
-- The row count of a Parquet file's footer, for crates/transferred-files/src/formats/parquet.rs.
use transferred.Prelude.{ℕ, ◌+◌, ◌<◌, ◌≡◌, List, [], ◌∷◌, arith}
use transferred.Core.Arrow.{ArrowField, RecordBatch}
use transferred.Files.Paths.{FilePath}
use transferred.Files.Parquet.{ParquetFiles, ParquetCompression}
use transferred.Files.ParquetWriting.{Takes, after_all}
use transferred.Files.Totals.{total}

-- The footer of a file that is opened counts nothing, and a batch adds its rows, as far as an `i64` goes.
pub record CountsBatches {ℓ} {W : Type ℓ} {parquet : ParquetFiles W} (takes : Takes parquet)
    : Type ℓ where
  pub opened_lem :
      (path : FilePath) (schema : List ArrowField) (compression : ParquetCompression) (w : W)
      → takes.count (takes.opened path schema compression w) ≡ 0
  pub after_lem :
      (batch : RecordBatch) (w : W)
      → takes.count w + batch.num_rows < 9223372036854775808
      → takes.count (takes.after batch w) ≡ takes.count w + batch.num_rows

abbrev pub rows_in : List RecordBatch → ℕ
rows_in batches = total (λ (batch : RecordBatch). batch.num_rows) batches

module _ {ℓ} {W : Type ℓ} (parquet : ParquetFiles W) (takes : Takes parquet)
    (footer : CountsBatches takes) where
  pub count-after_all :
      (batches : List RecordBatch) (w : W)
      → takes.count w + rows_in batches < 9223372036854775808
      → takes.count (after_all parquet takes batches w) ≡ takes.count w + rows_in batches
  count-after_all [] w h = omega arith
  count-after_all (batch ∷ batches) w h =
      let one = footer.after_lem batch w (omega arith) in
      let all = count-after_all batches (takes.after batch w) (rw one (omega arith)) in
      omega (arith, one, all)
