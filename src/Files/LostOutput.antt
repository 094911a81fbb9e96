-- ===== src/Files/LostOutput.antt =====
-- A rename that fails, for `atomic_replace` and `cleanup` in crates/transferred-files/src/destination.rs.
use transferred.Prelude.{◌≡◌, refl, ok, err, Bool, false}
use transferred.Core.Error.{IoError, io}
use transferred.Core.Effect.{on_error}
use transferred.Files.Paths.{FilePath}
use transferred.Files.FileSystem.{FileSystem}
use transferred.Files.Destination.{
  FilesDestination, tolerate, remove_if_there, atomic_replace, cleanup,
}

-- What removing a directory is documented to do: where it succeeds the directory is gone, and it
-- brings no other back.
pub record Removes {ℓ} {W : Type ℓ} (fs : FileSystem W) : Type ℓ where
  pub exists : W → FilePath → Bool
  pub gone :
      (path : FilePath) (w : W)
      → (fs.remove_dir_all path w).0 ≡ ok tt
      → exists (fs.remove_dir_all path w).1 path ≡ false
  pub stays_gone :
      (path other : FilePath) (w : W)
      → exists w other ≡ false
      → exists (fs.remove_dir_all path w).1 other ≡ false

module _ {ℓ} {W : Type ℓ} (fs : FileSystem W) (laws : Removes fs) (self : FilesDestination W) where
  -- Where the old output was removed and the rename of the new one then fails, changing nothing,
  -- the clean-up behind it leaves no output at the path, and the failure is answered.
  pub failed_rename :
      (tmp_dir : FilePath) (w : W) (e : IoError)
      → (fs.remove_dir_all self.path w).0 ≡ ok tt
      → fs.rename tmp_dir self.path (fs.remove_dir_all self.path w).1
        ≡ (err e, (fs.remove_dir_all self.path w).1)
      → ((on_error (cleanup fs tmp_dir) (atomic_replace fs self tmp_dir) w).0 ≡ err (io e))
        × (laws.exists
              (on_error (cleanup fs tmp_dir) (atomic_replace fs self tmp_dir) w).1
              self.path
            ≡ false)
  unfolding atomic_replace cleanup remove_if_there tolerate
  failed_rename tmp_dir w e removed failed = (
    rw (removed, failed) refl,
    rw (removed, failed) (laws.stays_gone tmp_dir self.path _ (laws.gone self.path w removed)),
  )
