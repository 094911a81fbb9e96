-- ===== src/Files/Resolving.antt =====
-- Which files a source reads, for `GlobOrPaths::resolve` in source.rs.
use transferred.Prelude.{
  Text, ◌<◌, ◌≡◌, refl, List, [], ◌∷◌, Result, ok, err, Option, some, none, inl, inr, Bool, false,
  Bool-cases, All, length, arith, collect,
}
use transferred.Core.Error.{Outcome, AnyError}
use transferred.Files.Paths.{FilePath}
use transferred.Files.FileSystem.{FileSystem}
use transferred.Files.Source.{
  GlobOrPaths, glob, paths, find_dir, no_directory, enumerated, checked, expand_glob, glob_paths,
  matched_some, all_ok, resolve,
}

find_dir-none :
    (is_dir : FilePath → Bool) (found : List FilePath)
    → find_dir is_dir found ≡ none
    → All (λ path. is_dir path ≡ false) found
unfolding find_dir
find_dir-none is_dir [] h = tt
find_dir-none is_dir (path ∷ rest) h = elim (Bool-cases (is_dir path)) [
  | inl dir ↦ absurd (ground arith)
  | inr file ↦ (file, find_dir-none is_dir rest (ground arith))
]

-- At least one file, and none of them a directory.
abbrev pub IsReadable : (FilePath → Bool) → Outcome (List FilePath) → Type 0
IsReadable is_dir (ok found) = (0 < length found) × All (λ path. is_dir path ≡ false) found
IsReadable is_dir (err e) = Unit

abbrev IsNonEmpty : Outcome (List FilePath) → Type 0
IsNonEmpty (ok found) = 0 < length found
IsNonEmpty (err e) = Unit

module _ {ℓ} {W : Type ℓ} (fs : FileSystem W) (w : W) where
  matched_some-IsNonEmpty :
      (pattern_text : Text) (found : List FilePath) → IsNonEmpty (matched_some pattern_text found)
  unfolding matched_some
  matched_some-IsNonEmpty pattern_text [] = tt
  matched_some-IsNonEmpty pattern_text (path ∷ rest) = omega arith

  glob_paths-IsNonEmpty :
      (pattern_text : Text) (r : Result (List (Result FilePath AnyError)) AnyError)
      → IsNonEmpty (glob_paths fs w pattern_text r)
  unfolding glob_paths
  glob_paths-IsNonEmpty pattern_text (err e) = tt
  glob_paths-IsNonEmpty pattern_text (ok walked) = go (collect all_ok walked) refl
    where
      go :
          (r : Outcome (List FilePath))
          → collect all_ok walked ≡ r
          → IsNonEmpty (glob_paths fs w pattern_text (ok walked))
      go (err e) same = rw (glob_paths, same) tt
      go (ok found) same = rw (glob_paths, same) (matched_some-IsNonEmpty pattern_text found)

  enumerated-IsNonEmpty : (inputs : GlobOrPaths) → IsNonEmpty (enumerated fs w inputs)
  unfolding enumerated expand_glob glob_paths matched_some
  enumerated-IsNonEmpty (paths []) = tt
  enumerated-IsNonEmpty (paths (path ∷ rest)) = omega arith
  enumerated-IsNonEmpty (glob pattern_text) =
      glob_paths-IsNonEmpty pattern_text (fs.glob w pattern_text)

  checked-IsReadable :
      (r : Outcome (List FilePath)) → IsNonEmpty r → IsReadable (fs.is_dir w) (checked fs w r)
  unfolding checked no_directory
  checked-IsReadable (err e) h = tt
  checked-IsReadable (ok found) h = go (find_dir (fs.is_dir w) found) refl
    where
      go :
          (o : Option FilePath)
          → find_dir (fs.is_dir w) found ≡ o
          → IsReadable (fs.is_dir w) (no_directory fs w found)
      go none e = rw (no_directory, e) (h, find_dir-none (fs.is_dir w) found e)
      go (some path) e = rw (no_directory, e) tt

  -- The inputs that a files source resolves to are never none at all, and no directory is among
  -- them.
  pub resolve-IsReadable : (inputs : GlobOrPaths) → IsReadable (fs.is_dir w) (resolve fs w inputs)
  unfolding resolve
  resolve-IsReadable inputs =
      checked-IsReadable (enumerated fs w inputs) (enumerated-IsNonEmpty inputs)
