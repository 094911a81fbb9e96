-- ===== src/Files/Succeeding.antt =====
-- A write of one stream to Parquet that succeeds: FilesDestination::write_partitions in destination.rs
-- over formats/parquet.rs.
use mathlib.Core.List.{flatten}
use transferred.Prelude.{
  if◌then◌else◌, ℕ, ◌≡◌, refl, ap, codes, List, [], ◌∷◌, ◌++◌, append-nil, ok, err, map, join,
  arith, Bool, true, false,
}
use transferred.Core.Error.{empty_source}
use transferred.Core.Arrow.{RecordBatch}
use transferred.Core.Report.{RunReport}
use transferred.Core.Transfer.{BatchStream}
use transferred.Files.Paths.{FilePath}
use transferred.Files.FileSystem.{FileSystem}
use transferred.Files.Parquet.{ParquetFiles, Compression, parquet_compression, codec, write}
use transferred.Files.Parquet
use transferred.Files.ParquetWriting.{
  Takes, AllOf, parquet_compression-IsCodecOf, after_all, write-ok_or_err,
}
use transferred.Files.Destination.{
  Written, FilesDestination, tolerate, sum_rows, report, make_tmp, cleanup, remove_if_there,
  atomic_replace, output_filename, file_streams, nonempty, write_file, write_streams, write_files,
  write_partitions,
}
use transferred.Files.Destination
use transferred.Files.Totals.{Measures, reported, report-reported}

-- A file system on which what a write asks for succeeds: removing a directory may also find none.
pub record Performs {ℓ} {W : Type ℓ} (fs : FileSystem W) : Type ℓ where
  pub create_dir_all_lem : (path : FilePath) (w : W) → (fs.create_dir_all path w).0 ≡ ok tt
  pub remove_dir_all_lem : (path : FilePath) (w : W) → tolerate (fs.remove_dir_all path w).0 ≡ ok tt
  pub create_lem : (path : FilePath) (w : W) → (fs.create path w).0 ≡ ok tt
  pub rename_lem : (from to : FilePath) (w : W) → (fs.rename from to w).0 ≡ ok tt

file_streams-one {ℓ} :
    {W : Type ℓ} (self : FilesDestination W) (stream : BatchStream)
    → file_streams self (stream ∷ []) ≡ stream ∷ []
unfolding file_streams flatten
file_streams-one self stream = one self.single_file
  where
    one :
        (single : Bool) → (if single then flatten (stream ∷ []) ∷ [] else stream ∷ []) ≡ stream ∷ []
    one true = ap (λ s. s ∷ []) (append-nil stream)
    one false = refl

module _ {ℓ} {W : Type ℓ} (fs : FileSystem W) (performs : Performs fs) (measures : Measures fs)
    (parquet : ParquetFiles W) (takes : Takes parquet) (compression : Compression) (path : FilePath)
    (single_file : Bool) where
  abbrev pub to_parquet : FilesDestination W
  to_parquet = Destination.new path (codec parquet (Parquet.new compression)) single_file

  -- Where the writer stands after the batches, in a file opened in a given world.
  abbrev pub written_batches : RecordBatch → List RecordBatch → W → W
  written_batches first rest w = after_all parquet takes (first ∷ rest) (
      takes.opened (make_tmp path ++ output_filename to_parquet 1 ∷ []) first.schema
        (parquet_compression compression) w)

  pub write_partitions_empty :
      (elapsed : W → W → ℕ) (start : W)
      → (write_partitions fs to_parquet elapsed ([] ∷ []) start).0 ≡ err empty_source
  unfolding write_partitions write_files write_streams nonempty Destination.new
  write_partitions_empty elapsed start =
      rw (performs.create_dir_all_lem (make_tmp path) start, file_streams-one to_parquet []) refl

  -- The file that a world with it open is left with.
  abbrev one_file : RecordBatch → List RecordBatch → W → Written
  one_file first rest opening = record {
    path = path ++ output_filename to_parquet 1 ∷ [];
    rows = takes.count (written_batches first rest opening);
  }

  write_files-one :
      (first : RecordBatch) (rest : List RecordBatch) (w : W)
      → takes.IsWritable first.schema
      → AllOf parquet takes first.schema rest
      → (opening : W) × (write_files fs to_parquet (make_tmp path) ((ok first ∷ map ok rest) ∷ []) w
          ≡ (
            ok (one_file first rest opening ∷ []),
            takes.closed (written_batches first rest opening),
          ))
  unfolding write_files write_streams write_file nonempty Destination.new codec Parquet.new
  write_files-one first rest w writable all =
      let file = make_tmp path ++ output_filename to_parquet 1 ∷ [] in
      let opening = (fs.create file w).1 in
      let (wrote, _) =
        write-ok_or_err parquet takes compression (parquet_compression compression) file first rest
          empty_source [] opening (parquet_compression-IsCodecOf compression) writable all in
      (
        opening,
        rw (file_streams-one to_parquet (ok first ∷ map ok rest), performs.create_lem file w)
            (rw wrote refl),
      )

  pub write_partitions-one :
      (elapsed : W → W → ℕ) (first : RecordBatch) (rest : List RecordBatch) (start : W)
      → takes.IsWritable first.schema
      → AllOf parquet takes first.schema rest
      → (run : RunReport) × (opening : W) × ((write_partitions fs to_parquet elapsed
            ((ok first ∷ map ok rest) ∷ [])
            start).0
          ≡ ok run)
        × (run.rows ≡ takes.count (written_batches first rest opening))
        × (run.written_objects ≡ join (codes "/") (path ++ output_filename to_parquet 1 ∷ []) ∷ [])
  unfolding write_partitions atomic_replace remove_if_there sum_rows Destination.new
  write_partitions-one elapsed first rest start writable all =
      let made = (fs.create_dir_all (make_tmp path) start).1 in
      let (opening, wrote) = write_files-one first rest made writable all in
      let files = one_file first rest opening ∷ [] in
      let removed =
        (fs.remove_dir_all path (takes.closed (written_batches first rest opening))).1 in
      let renamed = (fs.rename (make_tmp path) path removed).1 in
      (
        reported fs measures (elapsed start) files renamed,
        opening,
        rw (performs.create_dir_all_lem (make_tmp path) start, wrote)
            (rw (performs.remove_dir_all_lem path _) (
              rw (performs.rename_lem (make_tmp path) path removed)
                (rw (report-reported fs measures (elapsed start) files renamed) refl))),
        (let few = takes.few (written_batches first rest opening) in omega (arith, few)),
        refl,
      )
