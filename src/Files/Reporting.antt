-- ===== src/Files/Reporting.antt =====
-- What a write of files reports, for FilesDestination::write_partitions and report in destination.rs.
use mathlib.Core.List.{map-map}
use transferred.Prelude.{
  ℕ, ◌%◌, ◌^◌, ◌≡◌, refl, ap, sym, ◌∙◌, codes, List, [], Result, ok, map, join,
}
use transferred.Core.Error.{io, TransferredError}
use transferred.Core.Effect.{
  Effect, mapped, bind-eq-ok, mapped-eq-ok, on_error-eq-ok, ◌>>=◌, ◌>>◌, pure, on_error,
}
use transferred.Core.Report.{RunReport}
use transferred.Core.Transfer.{BatchStream}
use transferred.Files.FileSystem.{FileSystem}
use transferred.Files.Destination.{
  Written, FilesDestination, make_tmp, cleanup, remove_if_there, atomic_replace, file_streams,
  write_files, write_partitions,
}
use transferred.Files.PartFiles.{filled, numbered, write_files-numbered}
use transferred.Files.Totals.{
  Measures, CountsRows, total, at_most_u64, report-reported, write_files-rows,
}

module _ {ℓ} {W : Type ℓ} (fs : FileSystem W) (self : FilesDestination W) (measures : Measures fs)
    (counts : CountsRows self.format) where
  -- The files in place, and the renaming that put them there.
  abbrev in_place : List BatchStream → Effect W (List Written)
  in_place partitions = do
    files ← write_files fs self (make_tmp self.path) partitions
    atomic_replace fs self (make_tmp self.path)
    pure files

  in_place-eq-ok :
      (partitions : List BatchStream) (w : W) {files : List Written} {done : W}
      → in_place partitions w ≡ (ok files, done)
      → (between : W) × (moving : W) × (write_files fs self (make_tmp self.path) partitions w
          ≡ (ok files, between))
        × (fs.rename (make_tmp self.path) self.path moving ≡ (ok tt, done))
  unfolding atomic_replace
  in_place-eq-ok partitions w h =
      let (files, between, wrote, rest) =
        bind-eq-ok (write_files fs self (make_tmp self.path) partitions) _ w h in
      let (_, after, replaced, answered) =
        bind-eq-ok (atomic_replace fs self (make_tmp self.path)) _ between rest in
      let (_, moving, _, renamed) = bind-eq-ok (remove_if_there fs self.path) _ between replaced in
      let (same, ends) = both answered in
      (
        between,
        moving,
        rw (← same) wrote,
        rw (← ends) (mapped-eq-ok io (fs.rename (make_tmp self.path) self.path) moving renamed),
      )
    where
      both :
          {a b : List Written} {v v' : W}
          → ◌≡◌ {A = Result (List Written) TransferredError × W} (ok a, v) (ok b, v')
          → (a ≡ b) × (v ≡ v')
      both e = (cc e, ap (λ p. p.1) e)

  -- Where a format answers the rows of what it wrote and the length of a file is read without
  -- changing anything, a write of files that succeeds has a stream with a batch or an error to
  -- write, has ended with the renaming of the staging directory to the path, and reports one object
  -- for each such stream, in their order and numbered from 1 on without a gap, the sum of their
  -- rows modulo 2^64, the bytes of those objects, at most 2^64 - 1, and the time since the start.
  pub write_partitions-report :
      (elapsed : W → W → ℕ) (partitions : List BatchStream) (start : W) {run : RunReport} {done : W}
      → write_partitions fs self elapsed partitions start ≡ (ok run, done)
      → (moving : W) × (fs.rename (make_tmp self.path) self.path moving ≡ (ok tt, done))
        × ¬ (filled (file_streams self partitions) ≡ [])
        × (run.written_objects
            ≡ map (join (codes "/")) (numbered self 0 (filled (file_streams self partitions))))
        × (run.rows ≡ total counts.rows_of (filled (file_streams self partitions)) % 2 ^ 64)
        × (run.bytes_written
            ≡ at_most_u64 (
                total
                  (measures.size done)
                  (numbered self 0 (filled (file_streams self partitions)))))
        × (run.duration ≡ elapsed start done)
  unfolding write_partitions atomic_replace
  write_partitions-report elapsed partitions start h =
      let (_, made, _, staged) =
        bind-eq-ok (mapped io (fs.create_dir_all (make_tmp self.path))) _ start h in
      let (files, moved, kept, told) =
        bind-eq-ok (on_error (cleanup fs (make_tmp self.path)) (in_place partitions)) _ made
          staged in
      let (_, moving, wrote, renamed) =
        in_place-eq-ok partitions made
          (on_error-eq-ok (cleanup fs (make_tmp self.path)) (in_place partitions) made kept) in
      let (unchanged, says) =
        both (sym (report-reported fs measures (elapsed start) files moved) ∙ told) in
      let (rows, some_files) =
        write_files-rows fs self counts (make_tmp self.path) partitions made wrote in
      let names = write_files-numbered fs self (make_tmp self.path) partitions made wrote in
      (
        moving,
        rw (← unchanged) renamed,
        some_files,
        ap (λ (r : RunReport). r.written_objects) (sym says)
            ∙ rw (← names) (sym (map-map (join (codes "/")) (λ (file : Written). file.path) files)),
        ap (λ (r : RunReport). r.rows) (sym says) ∙ rows,
        ap (λ (r : RunReport). r.bytes_written) (sym says) ∙ rw (unchanged, names) refl,
        ap (λ (r : RunReport). r.duration) (sym says) ∙ ap (elapsed start) unchanged,
      )
    where
      both :
          {a b : RunReport} {v v' : W}
          → ◌≡◌ {A = Result RunReport TransferredError × W} (ok a, v) (ok b, v')
          → (v ≡ v') × (a ≡ b)
      both e = (ap (λ p. p.1) e, cc e)
