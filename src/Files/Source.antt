-- ===== src/Files/Source.antt =====
-- crates/transferred-files/src/source.rs: which files are read, and the stream of each.
use transferred.Prelude.{
  Text, List, [], ◌∷◌, map, Option, some, none, Result, ok, err, map_err, Bool, true, false,
  collect,
}
use transferred.Core.Error.{
  lit, text, foreign, AnyError, TransferredError, Outcome, source_failed, io,
}
use transferred.Core.Effect.{Effect, lift, mapped, pure, ◌>>=◌, ◌>>◌}
use transferred.Core.Transfer.{BatchStream}
use transferred.Files.Paths.{FilePath}
use transferred.Files.FileSystem.{FileSystem, FormatRead}

pub data GlobOrPaths : Type 0 where
  glob : Text → GlobOrPaths
  paths : List FilePath → GlobOrPaths

pub record FilesSource {ℓ} (W : Type ℓ) : Type ℓ where
  pub inputs : GlobOrPaths
  pub format : FormatRead W

unfoldable pub new {ℓ} : {W : Type ℓ} → GlobOrPaths → FormatRead W → FilesSource W
new inputs format = record { inputs = inputs; format = format }

-- `iter().find(…)`
unfoldable pub find_dir : (FilePath → Bool) → List FilePath → Option FilePath
find_dir is_dir [] = none
find_dir is_dir (path ∷ rest) = elim (is_dir path) [
  | true ↦ some path
  | false ↦ find_dir is_dir rest
]

is_a_directory : TransferredError
is_a_directory = source_failed (
    foreign "the path"
    ∷ lit
        " is a directory, not a file. Pass a list of filenames or glob pattern (\"directory/*.parquet\")"
    ∷ [])

invalid_pattern : Text → AnyError → TransferredError
invalid_pattern pattern_text e =
    source_failed (
      lit "invalid glob pattern '"
      ∷ text pattern_text
      ∷ lit "': "
      ∷ foreign "the PatternError"
      ∷ [])

walk_error : AnyError → TransferredError
walk_error e = source_failed (lit "glob walk error: " ∷ foreign "the GlobError" ∷ [])

unfoldable pub matched_some : Text → List FilePath → Outcome (List FilePath)
matched_some pattern_text [] =
    err (source_failed (lit "glob '" ∷ text pattern_text ∷ lit "' matched no files" ∷ []))
matched_some pattern_text (path ∷ rest) = ok (path ∷ rest)

pub all_ok : Result FilePath AnyError → Outcome FilePath
all_ok found = map_err walk_error found

module _ {ℓ} {W : Type ℓ} (fs : FileSystem W) (w : W) where
  unfoldable pub glob_paths :
      Text → Result (List (Result FilePath AnyError)) AnyError → Outcome (List FilePath)
  unfolding matched_some all_ok walk_error invalid_pattern
  glob_paths pattern_text (err e) = err (invalid_pattern pattern_text e)
  glob_paths pattern_text (ok walked) = elim (collect all_ok walked) [
    | err e ↦ err e
    | ok found ↦ matched_some pattern_text found
  ]

  unfoldable pub expand_glob : Text → Outcome (List FilePath)
  unfolding glob_paths
  expand_glob pattern_text = glob_paths pattern_text (fs.glob w pattern_text)

  unfoldable pub enumerated : GlobOrPaths → Outcome (List FilePath)
  unfolding expand_glob
  enumerated (glob pattern_text) = expand_glob pattern_text
  enumerated (paths []) = err (source_failed (lit "no input paths provided" ∷ []))
  enumerated (paths (path ∷ rest)) = ok (path ∷ rest)

  unfoldable pub no_directory : List FilePath → Outcome (List FilePath)
  unfolding find_dir is_a_directory
  no_directory found = elim (find_dir (fs.is_dir w) found) [
    | none ↦ ok found
    | some path ↦ err is_a_directory
  ]

  unfoldable pub checked : Outcome (List FilePath) → Outcome (List FilePath)
  unfolding no_directory
  checked (err e) = err e
  checked (ok found) = no_directory found

  -- `GlobOrPaths::resolve`, in the world `w`.
  unfoldable pub resolve : GlobOrPaths → Outcome (List FilePath)
  unfolding enumerated checked
  resolve inputs = checked (enumerated inputs)

module _ {ℓ} {W : Type ℓ} (fs : FileSystem W) (self : FilesSource W) where
  open_file_stream : FilePath → Effect W BatchStream
  open_file_stream path = do mapped io (fs.open_file path); self.format.read path

  -- `stream::once(…).try_flatten()`: an error of opening is the stream's one item.
  flattened : Outcome BatchStream → BatchStream
  flattened (err e) = err e ∷ []
  flattened (ok batches) = batches

  -- The stream as it would be read in the world `w`.
  unfoldable pub lazy_open_file : W → FilePath → BatchStream
  unfolding open_file_stream flattened
  lazy_open_file w path = flattened (open_file_stream path w).0

  unfoldable pub stream_partitions : Effect W (List BatchStream)
  unfolding lazy_open_file
  stream_partitions w =
      ((do found ← lift (resolve fs w self.inputs); pure (map (lazy_open_file w) found)) w)
