-- ===== src/Files/Destination.antt =====
-- crates/transferred-files/src/destination.rs: part files in a directory, staged beside it.
use mathlib.Core.List.{flatten}
use transferred.Prelude.{
  ◌%◌, ◌^◌, ℕ, ◌+◌, ◌-◌, ◌^◌, Text, codes, List, [], ◌∷◌, ◌++◌, map, Option, some, none, Result, ok,
  err, Bool, length, ltb, join, replicate, if◌then◌else◌,
}
use transferred.Prelude.Decimal.{display_nat}
use transferred.Core.Error.{empty_source, io, IoError, other_io, Outcome}
use transferred.Core.Effect.{Effect, pure, lift, mapped, on_error, ◌>>=◌, ◌>>◌}
use transferred.Core.Report.{RunReport}
use transferred.Core.Transfer.{BatchStream}
use transferred.Files.Paths.{FilePath, file_name, with_file_name}
use transferred.Files.FileSystem.{FileSystem, FormatWrite}

pub record Written : Type 0 where
  pub path : FilePath
  pub rows : ℕ

or_default : Text → Option Text → Text
or_default default none = default
or_default default (some name) = name

-- `make_tmp`: `{name}.tmp` beside the path.
unfoldable pub make_tmp : FilePath → FilePath
unfolding or_default
make_tmp final_path =
    with_file_name final_path (or_default [] (file_name final_path) ++ codes ".tmp")

-- `{part:05}`
unfoldable pub padded : ℕ → Text
padded part = let digits = display_nat part in replicate (5 - length digits) b'0' ++ digits

-- `u64::saturating_add`
abbrev pub saturating_add : ℕ → ℕ → ℕ
saturating_add a b = if ltb (a + b) (2 ^ 64) then a + b else 2 ^ 64 - 1

-- `sum` of `u64`, which wraps in a release build.
unfoldable pub sum_rows : List Written → ℕ
sum_rows [] = 0
sum_rows (file ∷ files) = (file.rows + sum_rows files) % 2 ^ 64

-- The failure that `remove_dir_all` may have: a path that is not there is none.
unfoldable pub tolerate : Result (Unit {0}) IoError → Outcome (Unit {0})
tolerate (err (other_io e)) = err (io (other_io e))
tolerate _ = ok tt

module _ {ℓ} {W : Type ℓ} (fs : FileSystem W) where
  unfoldable pub remove_if_there : FilePath → Effect W (Unit {0})
  unfolding tolerate
  remove_if_there path w = (tolerate (fs.remove_dir_all path w).0, (fs.remove_dir_all path w).1)

  -- Any failure is at most logged.
  unfoldable pub cleanup : FilePath → W → W
  cleanup tmp_dir w = (fs.remove_dir_all tmp_dir w).1

  unfoldable pub bytes_of : ℕ → List Written → Effect W ℕ
  bytes_of total [] = pure total
  bytes_of total (file ∷ files) = do
    len ← mapped io (fs.metadata_len file.path)
    bytes_of (saturating_add total len) files

  -- `rows` is a `u64` sum. A path displays as its components joined by `/`.
  unfoldable pub report : (W → ℕ) → List Written → Effect W RunReport
  unfolding bytes_of sum_rows
  report elapsed written = do
    bytes ← bytes_of 0 written
    (λ w. (
      ok (record {
        rows = sum_rows written;
        bytes_written = bytes;
        written_objects = map (λ (file : Written). join (codes "/") file.path) written;
        duration = elapsed w;
      }),
      w,
    ))

pub record FilesDestination {ℓ} (W : Type ℓ) : Type ℓ where
  pub path : FilePath
  pub format : FormatWrite W
  pub single_file : Bool

module _ {ℓ} {W : Type ℓ} where
  unfoldable pub new : FilePath → FormatWrite W → Bool → FilesDestination W
  new path format single_file = record { path = path; format = format; single_file = single_file }

  unfoldable pub output_filename : FilesDestination W → ℕ → Text
  unfolding or_default
  output_filename self part =
      let ext = codes "." ++ self.format.file_extension in
      if self.single_file
      then or_default (codes "data") (file_name self.path) ++ ext
      else codes "part-" ++ (padded part ++ ext)

  unfoldable pub file_streams : FilesDestination W → List BatchStream → List BatchStream
  file_streams self partitions = if self.single_file then flatten partitions ∷ [] else partitions

module _ {ℓ} {W : Type ℓ} (fs : FileSystem W) (self : FilesDestination W) where
  -- One file of the loop: created in `tmp_dir` under the next name, and written.
  unfoldable pub write_file : FilePath → List Written → BatchStream → Effect W Written
  write_file tmp_dir written batches = do
    let name = output_filename self (length written + 1)
    mapped io (fs.create (tmp_dir ++ name ∷ []))
    rows ← self.format.write (tmp_dir ++ name ∷ []) batches
    pure (record { path = self.path ++ name ∷ []; rows = rows })

  -- The loop of `write_files`; a stream with nothing in it is skipped.
  unfoldable pub write_streams :
      FilePath → List Written → List BatchStream → Effect W (List Written)
  unfolding write_file
  write_streams tmp_dir written [] = pure written
  write_streams tmp_dir written ([] ∷ streams) = write_streams tmp_dir written streams
  write_streams tmp_dir written ((item ∷ batches) ∷ streams) = do
    file ← write_file tmp_dir written (item ∷ batches)
    write_streams tmp_dir (written ++ file ∷ []) streams

  unfoldable pub nonempty : List Written → Outcome (List Written)
  nonempty [] = err empty_source
  nonempty (file ∷ files) = ok (file ∷ files)

  unfoldable pub write_files : FilePath → List BatchStream → Effect W (List Written)
  unfolding write_streams nonempty
  write_files tmp_dir partitions = do
    written ← write_streams tmp_dir [] (file_streams self partitions)
    lift (nonempty written)

  unfoldable pub atomic_replace : FilePath → Effect W (Unit {0})
  unfolding remove_if_there
  atomic_replace tmp_dir = do remove_if_there fs self.path; mapped io (fs.rename tmp_dir self.path)

  unfoldable pub write_partitions : (W → W → ℕ) → List BatchStream → Effect W RunReport
  unfolding write_files atomic_replace cleanup report
  write_partitions elapsed partitions start =
      (do
        mapped io (fs.create_dir_all (make_tmp self.path))
        written ← on_error (cleanup fs (make_tmp self.path)) (do
          files ← write_files (make_tmp self.path) partitions
          atomic_replace (make_tmp self.path)
          pure files)
        report fs (elapsed start) written)
        start
