-- ===== src/Files/Totals.antt =====
-- The rows and the bytes of the files that a write makes, for write_files and report in destination.rs.
use transferred.Prelude.{
  ℕ, ◌%◌, ◌+◌, ◌-◌, ◌^◌, ◌≡◌, refl, ap, sym, ◌∙◌, List, [], ◌∷◌, ◌++◌, Result, ok, map, length, ltb,
  if◌then◌else◌, arith,
}
use transferred.Core.Error.{io, TransferredError}
use transferred.Core.Effect.{mapped, bind-eq-ok}
use transferred.Core.Report.{RunReport}
use transferred.Core.Transfer.{BatchStream}
use transferred.Prelude.{join, codes}
use transferred.Files.Paths.{FilePath}
use transferred.Files.FileSystem.{FileSystem, FormatWrite}
use transferred.Files.Destination.{
  Written, FilesDestination, saturating_add, sum_rows, bytes_of, report, output_filename,
  write_file, file_streams, nonempty, write_streams, write_files,
}
use transferred.Files.PartFiles.{filled, nothing_filled}

abbrev pub total : {A : Type 0} → (A → ℕ) → List A → ℕ
total f [] = 0
total f (x ∷ xs) = f x + total f xs

-- What a `u64` that saturates holds of a number.
abbrev pub at_most_u64 : ℕ → ℕ
at_most_u64 n = if ltb n (2 ^ 64) then n else 2 ^ 64 - 1

at_most-saturating_add : (t n : ℕ) → saturating_add (at_most_u64 t) n ≡ at_most_u64 (t + n)
at_most-saturating_add t n = ground arith

-- The length of a file is read without changing anything.
pub record Measures {ℓ} {W : Type ℓ} (fs : FileSystem W) : Type ℓ where
  pub size : W → FilePath → ℕ
  pub metadata_lem : (path : FilePath) (w : W) → fs.metadata_len path w ≡ (ok (size w path), w)

-- A format answers the rows of what it wrote.
pub record CountsRows {ℓ} {W : Type ℓ} (format : FormatWrite W) : Type ℓ where
  pub rows_of : BatchStream → ℕ
  pub write_lem :
      (path : FilePath) (batches : BatchStream) (w : W) {n : ℕ} {w' : W}
      → format.write path batches w ≡ (ok n, w')
      → n ≡ rows_of batches

module _ {ℓ} {W : Type ℓ} (fs : FileSystem W) (measures : Measures fs) where
  pub bytes_of-total :
      (files : List Written) (t : ℕ) (w : W)
      → bytes_of fs (at_most_u64 t) files w ≡ (
        ok (at_most_u64 (t + total (measures.size w) (map (λ (file : Written). file.path) files))),
        w,
      )
  unfolding bytes_of
  bytes_of-total [] t w = let same : t + 0 ≡ t = omega arith in rw same refl
  bytes_of-total (file ∷ files) t w =
      let size = measures.size w file.path in
      let others = total (measures.size w) (map (λ (f : Written). f.path) files) in
      let same : t + (size + others) ≡ t + size + others = omega arith in
      rw (measures.metadata_lem file.path w, at_most-saturating_add t size, same)
        (bytes_of-total files (t + size) w)

  abbrev pub reported : (W → ℕ) → List Written → W → RunReport
  reported elapsed files w = record {
    rows = sum_rows files;
    bytes_written =
        at_most_u64 (total (measures.size w) (map (λ (file : Written). file.path) files));
    written_objects = map (λ (file : Written). join (codes "/") file.path) files;
    duration = elapsed w;
  }

  -- The report of files that are in place.
  pub report-reported :
      (elapsed : W → ℕ) (files : List Written) (w : W)
      → report fs elapsed files w ≡ (ok (reported elapsed files w), w)
  unfolding report
  report-reported elapsed files w =
      let n = total (measures.size w) (map (λ (file : Written). file.path) files) in
      let same : 0 + n ≡ n = omega arith in rw ((rw same at (bytes_of-total files 0 w))) refl

abbrev added : List Written → ℕ
added files = total (λ (file : Written). file.rows) files

sum_rows-added : (files : List Written) → sum_rows files ≡ added files % 2 ^ 64
unfolding sum_rows
sum_rows-added [] = refl
sum_rows-added (file ∷ files) = rw (sum_rows-added files) (wrapped file.rows (added files))
  where
    wrapped : (a b : ℕ) → (a + b % 2 ^ 64) % 2 ^ 64 ≡ (a + b) % 2 ^ 64
    wrapped a b = omega arith

module _ {ℓ} {W : Type ℓ} (fs : FileSystem W) (self : FilesDestination W)
    (counts : CountsRows self.format) where
  module _ (tmp_dir : FilePath) where
    write_file-rows :
        (written : List Written) (batches : BatchStream) (w : W) {file : Written} {w' : W}
        → write_file fs self tmp_dir written batches w ≡ (ok file, w')
        → file.rows ≡ counts.rows_of batches
    unfolding write_file
    write_file-rows written batches w h =
        let (_, created, _, behind) =
          bind-eq-ok
            (mapped io (fs.create (tmp_dir ++ output_filename self (length written + 1) ∷ []))) _ w
            h in
        let (rows, _, wrote, made) = bind-eq-ok (self.format.write _ batches) _ created behind in
        rows_same made ∙ counts.write_lem _ batches created wrote
      where
        rows_same :
            {a b : Written} {v v' : W}
            → ◌≡◌ {A = Result Written TransferredError × W} (ok a, v) (ok b, v')
            → b.rows ≡ a.rows
        rows_same e = cc

    added-append :
        (files : List Written) (file : Written)
        → added (files ++ file ∷ []) ≡ added files + file.rows
    added-append [] file = omega arith
    added-append (first ∷ files) file =
        ap (λ n. first.rows + n) (added-append files file) ∙ omega arith

    write_streams-rows :
        (written : List Written) (streams : List BatchStream) (w : W) {files : List Written}
        {w' : W}
        → write_streams fs self tmp_dir written streams w ≡ (ok files, w')
        → added files ≡ added written + total counts.rows_of (filled streams)
    unfolding write_streams
    write_streams-rows written [] w h = ap added (same_files h) ∙ omega arith
      where
        same_files :
            {a b : List Written} {v v' : W}
            → ◌≡◌ {A = Result (List Written) TransferredError × W} (ok a, v) (ok b, v')
            → b ≡ a
        same_files e = cc
    write_streams-rows written ([] ∷ streams) w h = write_streams-rows written streams w h
    write_streams-rows written ((item ∷ batches) ∷ streams) w h =
        let (file, after, wrote, rest) =
          bind-eq-ok (write_file fs self tmp_dir written (item ∷ batches)) _ w h in
        write_streams-rows (written ++ file ∷ []) streams after rest
        ∙ ap (λ n. n + total counts.rows_of (filled streams)) (added-append written file)
        ∙ ap (λ n. added written + n + total counts.rows_of (filled streams))
            (write_file-rows written (item ∷ batches) w wrote)
        ∙ omega arith

    pub write_files-rows :
        (partitions : List BatchStream) (w : W) {files : List Written} {w' : W}
        → write_files fs self tmp_dir partitions w ≡ (ok files, w')
        → (sum_rows files ≡ total counts.rows_of (filled (file_streams self partitions)) % 2 ^ 64)
          × ¬ (filled (file_streams self partitions) ≡ [])
    unfolding write_files nonempty
    write_files-rows partitions w h =
        let (written, after, wrote, kept) =
          bind-eq-ok (write_streams fs self tmp_dir [] (file_streams self partitions)) _ w h in
        let (same, some_files) = all_kept written (ap (λ p. p.0) kept) in
        (
          sum_rows-added _
              ∙ ap (λ n. n % 2 ^ 64)
                  (ap added (sym same)
                    ∙ write_streams-rows [] (file_streams self partitions) w wrote
                    ∙ omega arith),
          λ none_filled. some_files (
              no_files
                (nothing_filled fs self tmp_dir [] (file_streams self partitions) w none_filled)
                wrote),
        )
      where
        all_kept :
            (written : List Written) {files : List Written}
            → nonempty fs self written ≡ ok files
            → (written ≡ files) × ¬ (written ≡ [])
        all_kept [] e = absurd (cc e)
        all_kept (file ∷ rest) e = (cc e, λ none. cc none)

        no_files :
            {p : Result (List Written) TransferredError × W} {a b : List Written} {v v' : W}
            → p ≡ (ok a, v)
            → p ≡ (ok b, v')
            → b ≡ a
        no_files e f = cc
