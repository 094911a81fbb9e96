-- ===== src/Files/PartFiles.antt =====
-- The files that a destination writes, for `write_files` in destination.rs.
use mathlib.Core.List.{map-append}
use transferred.Prelude.{
  ℕ, ◌+◌, ◌≡◌, refl, ap, sym, ◌∙◌, List, [], ◌∷◌, ◌++◌, append_assoc, append-nil, Result, ok, map,
  length, length-append,
}
use transferred.Core.Error.{io, TransferredError}
use transferred.Core.Effect.{mapped, bind-eq-ok}
use transferred.Core.Transfer.{BatchStream}
use transferred.Files.Paths.{FilePath}
use transferred.Files.FileSystem.{FileSystem}
use transferred.Files.Destination.{
  Written, FilesDestination, output_filename, write_file, file_streams, nonempty, write_streams,
  write_files,
}

-- The streams that have a batch, or an error, to write.
abbrev pub filled : List BatchStream → List BatchStream
filled [] = []
filled ([] ∷ streams) = filled streams
filled ((item ∷ batches) ∷ streams) = (item ∷ batches) ∷ filled streams

-- A path for each of the streams, the first one numbered one above `done`.
abbrev pub numbered {ℓ} : {W : Type ℓ} → FilesDestination W → ℕ → List BatchStream → List FilePath
numbered self done [] = []
numbered self done (stream ∷ streams) =
    (self.path ++ output_filename self (done + 1) ∷ []) ∷ numbered self (done + 1) streams

module _ {ℓ} {W : Type ℓ} (fs : FileSystem W) (self : FilesDestination W) (tmp_dir : FilePath) where
  write_file-path :
      (written : List Written) (batches : BatchStream) (w : W) {file : Written} {w' : W}
      → write_file fs self tmp_dir written batches w ≡ (ok file, w')
      → file.path ≡ self.path ++ output_filename self (length written + 1) ∷ []
  unfolding write_file
  write_file-path written batches w h =
      let created =
        bind-eq-ok
          (mapped io (fs.create (tmp_dir ++ output_filename self (length written + 1) ∷ []))) _ w
          h in
      let wrote = bind-eq-ok (self.format.write _ batches) _ created.1 created.3 in
      sym (path_of wrote.3)
    where
      path_of :
          {a b : Written} {v v' : W}
          → ◌≡◌ {A = Result Written TransferredError × W} (ok a, v) (ok b, v')
          → a.path ≡ b.path
      path_of e = cc

  one_more :
      (written : List Written) (file : Written) (streams : List BatchStream)
      → file.path ≡ self.path ++ output_filename self (length written + 1) ∷ []
      → map (λ (f : Written). f.path) (written ++ file ∷ [])
          ++ numbered self (length (written ++ file ∷ [])) streams
        ≡ map (λ (f : Written). f.path) written
          ++ (self.path ++ output_filename self (length written + 1) ∷ [])
            ∷ numbered self (length written + 1) streams
  one_more written file streams named =
      rw
        (
          length-append written (file ∷ []),
          map-append (λ (f : Written). f.path) written (file ∷ []),
        )
        (append_assoc (map _ written) (file.path ∷ []) _
          ∙ ap
              (λ path.
                map (λ (f : Written). f.path) written
                ++ path ∷ numbered self (length written + 1) streams)
              named)

  write_streams-numbered :
      (written : List Written) (streams : List BatchStream) (w : W) {files : List Written} {w' : W}
      → write_streams fs self tmp_dir written streams w ≡ (ok files, w')
      → map (λ (file : Written). file.path) files
        ≡ map (λ (file : Written). file.path) written
          ++ numbered self (length written) (filled streams)
  unfolding write_streams
  write_streams-numbered written [] w h =
      sym (append-nil _) ∙ ap (λ front. front ++ []) (same_files h)
    where
      same_files :
          {a b : List Written} {v v' : W}
          → ◌≡◌ {A = Result (List Written) TransferredError × W} (ok a, v) (ok b, v')
          → map (λ (file : Written). file.path) b ≡ map (λ (file : Written). file.path) a
      same_files e = cc
  write_streams-numbered written ([] ∷ streams) w h = write_streams-numbered written streams w h
  write_streams-numbered written ((item ∷ batches) ∷ streams) w h =
      let one = bind-eq-ok (write_file fs self tmp_dir written (item ∷ batches)) _ w h in
      let named = write_file-path written (item ∷ batches) w one.2 in
      write_streams-numbered (written ++ one.0 ∷ []) streams one.1 one.3
      ∙ one_more written one.0 (filled streams) named

  -- Where write_files succeeds, the files are those of the streams that are not empty, in their
  -- order, and numbered from 1 on without a gap.
  pub write_files-numbered :
      (partitions : List BatchStream) (w : W) {files : List Written} {w' : W}
      → write_files fs self tmp_dir partitions w ≡ (ok files, w')
      → map (λ (file : Written). file.path) files
        ≡ numbered self 0 (filled (file_streams self partitions))
  unfolding write_files nonempty
  write_files-numbered partitions w h =
      let all =
        bind-eq-ok (write_streams fs self tmp_dir [] (file_streams self partitions)) _ w h in
      ap (map (λ (file : Written). file.path)) (sym (same all.0 (ap (λ p. p.0) all.3)))
      ∙ write_streams-numbered [] (file_streams self partitions) w all.2
    where
      same :
          (written : List Written) {files : List Written}
          → nonempty fs self written ≡ ok files
          → written ≡ files
      same [] e = absurd (cc e)
      same (file ∷ rest) e = cc

  pub nothing_filled :
      (written : List Written) (streams : List BatchStream) (w : W)
      → filled streams ≡ []
      → write_streams fs self tmp_dir written streams w ≡ (ok written, w)
  unfolding write_streams
  nothing_filled written [] w h = refl
  nothing_filled written ([] ∷ streams) w h = nothing_filled written streams w h
  nothing_filled written ((item ∷ batches) ∷ streams) w h = absurd (cc h)
