-- ===== src/Files/FileSystem.antt =====
-- What `tokio::fs`, the `glob` crate and a file format do, as the connector calls them: parameters.
use transferred.Prelude.{ℕ, Text, List, Bool, Result}
use transferred.Core.Error.{AnyError, IoError}
use transferred.Core.Effect.{Effect}
use transferred.Core.Transfer.{BatchStream}
use transferred.Files.Paths.{FilePath}

abbrev pub IoCall {ℓ} : Type ℓ → Type 0 → Type ℓ
IoCall W A = W → Result A IoError × W

pub record FileSystem {ℓ} (W : Type ℓ) : Type ℓ where
  pub create_dir_all : FilePath → IoCall W (Unit {0})
  pub remove_dir_all : FilePath → IoCall W (Unit {0})
  pub rename : FilePath → FilePath → IoCall W (Unit {0})
  pub create : FilePath → IoCall W (Unit {0})
  pub metadata_len : FilePath → IoCall W ℕ
  pub open_file : FilePath → IoCall W (Unit {0})
  pub is_dir : W → FilePath → Bool
  -- `glob::glob`: an error of the pattern, or the paths with the errors of walking to them.
  pub glob : W → Text → Result (List (Result FilePath AnyError)) AnyError

-- formats.rs: the traits `FormatWrite` and `FormatRead`, over a file that stands by its path.
pub record FormatWrite {ℓ} (W : Type ℓ) : Type ℓ where
  pub file_extension : Text
  pub write : FilePath → BatchStream → Effect W ℕ

pub record FormatRead {ℓ} (W : Type ℓ) : Type ℓ where
  pub read : FilePath → Effect W BatchStream
