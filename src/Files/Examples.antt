-- ===== src/Files/Examples.antt =====
-- The theorems on the file connector at concrete values.
use transferred.Prelude.{ℕ, ◌%◌, ◌^◌, ◌+◌, ◌≡◌, refl, codes, [], ◌∷◌, ok, err, false, length}
use transferred.Core.Error.{empty_source, io, other_io, root}
use transferred.Core.Effect.{on_error}
use transferred.Files.LostOutput.{Removes, failed_rename}
use transferred.Files.Destination.{cleanup, atomic_replace}
use transferred.Prelude.{Bool, true}
use transferred.Files.FileSystem.{FileSystem}
use transferred.Files.Source.{paths, resolve}
use transferred.Files.Destination.{FilesDestination, file_streams}
use transferred.Core.Arrow.{RecordBatch}
use transferred.Files.Parquet.{zstd, zstd_default, write}
use transferred.Files.ParquetWriting.{as_zstd, write-ok_or_err}
use transferred.Files.SampleWriter.{summing, summing_takes}
use transferred.Files.Resolving.{IsReadable, resolve-IsReadable}
use transferred.Files.PartFiles.{filled, numbered}
use transferred.Files.Totals.{Measures, CountsRows, total, at_most_u64}
use transferred.Files.Reporting.{write_partitions-report}
use transferred.Core.Error.{TransferredError}
use transferred.Core.Report.{RunReport}
use transferred.Core.Transfer.{BatchStream}
use transferred.Prelude.{List, Result, map, join}
use transferred.Files.Destination.{make_tmp, write_partitions, padded, output_filename}
use transferred.Prelude.Decimal.{display_nat}

-- The world counts the files that were created.
abbrev disk : FileSystem ℕ
disk = record {
  create_dir_all = λ path w. (ok tt, w);
  remove_dir_all = λ path w. (ok tt, w);
  rename = λ from to w. (ok tt, w);
  create = λ path w. (ok tt, w + 1);
  metadata_len = λ path w. (ok 10, w);
  open_file = λ path w. (ok tt, w);
  is_dir = λ w path. false;
  glob = λ w pattern_text. ok [];
}

abbrev out : FilesDestination ℕ
out = record {
  path = codes "out" ∷ [];
  format = record {
    file_extension = codes "parquet";
    write = λ path batches w. (ok (length batches), w);
  };
  single_file = false;
}

resolve-IsReadable_example :
    IsReadable (disk.is_dir 0) (resolve disk 0 (paths ((codes "a.parquet" ∷ []) ∷ [])))
resolve-IsReadable_example = resolve-IsReadable disk 0 (paths ((codes "a.parquet" ∷ []) ∷ []))

abbrev no_columns : RecordBatch
no_columns = record { schema = []; columns = []; num_rows = 1 }

abbrev disk_measures : Measures disk
disk_measures = record { size = λ w path. 10; metadata_lem = λ path w. refl }

counted : {m n v v' : ℕ} → ◌≡◌ {A = Result ℕ TransferredError × ℕ} (ok m, v) (ok n, v') → n ≡ m
counted e = cc

abbrev out_counts : CountsRows out.format
out_counts = record {
  rows_of = λ batches. length batches;
  write_lem = λ path batches w e. counted e;
}

-- An empty partition, and one of two batches.
abbrev two_partitions : List BatchStream
two_partitions = [] ∷ (ok no_columns ∷ ok no_columns ∷ []) ∷ []

abbrev written_report : RunReport
written_report = record {
  rows = 2;
  bytes_written = 10;
  written_objects = codes "out/part-00001.parquet" ∷ [];
  duration = 5;
}

write_partitions-report_example :
    (moving : ℕ) × (disk.rename (make_tmp out.path) out.path moving ≡ (ok tt, 1))
    × ¬ (filled (file_streams out two_partitions) ≡ [])
    × (written_report.written_objects
        ≡ map (join (codes "/")) (numbered out 0 (filled (file_streams out two_partitions))))
    × (written_report.rows
        ≡ total (λ batches. length batches) (filled (file_streams out two_partitions)) % 2 ^ 64)
    × (written_report.bytes_written
        ≡ at_most_u64
            (total (λ path. 10) (numbered out 0 (filled (file_streams out two_partitions)))))
    × (written_report.duration ≡ 5)
unfolding write_partitions file_streams output_filename padded display_nat
write_partitions-report_example =
    write_partitions-report disk out disk_measures out_counts (λ from to. 5) two_partitions 0 refl

-- A disk that holds nothing but what its one flag says, and renames nothing.
abbrev full_disk : FileSystem Bool
full_disk = record {
  create_dir_all = λ path w. (ok tt, w);
  remove_dir_all = λ path w. (ok tt, false);
  rename = λ from to w. (err (other_io (root [])), w);
  create = λ path w. (ok tt, w);
  metadata_len = λ path w. (ok 0, w);
  open_file = λ path w. (ok tt, w);
  is_dir = λ w path. false;
  glob = λ w pattern_text. ok [];
}

abbrev full_disk_laws : Removes full_disk
full_disk_laws = record {
  exists = λ w path. w;
  gone = λ path w removed. refl;
  stays_gone = λ path other w absent. refl;
}

abbrev lost : FilesDestination Bool
lost = record {
  path = codes "out" ∷ [];
  format = record { file_extension = codes "parquet"; write = λ path batches w. (ok 0, w) };
  single_file = false;
}

failed_rename_example :
    ((on_error
        (cleanup full_disk (codes "out.tmp" ∷ []))
        (atomic_replace full_disk lost (codes "out.tmp" ∷ []))
        true).0
      ≡ err (io (other_io (root []))))
    × (full_disk_laws.exists
          (on_error
            (cleanup full_disk (codes "out.tmp" ∷ []))
            (atomic_replace full_disk lost (codes "out.tmp" ∷ []))
            true).1
          lost.path
        ≡ false)
failed_rename_example =
    failed_rename full_disk full_disk_laws lost (codes "out.tmp" ∷ []) true (other_io (root []))
      refl refl

write-ok_or_err_example :
    (write summing zstd (codes "a.parquet" ∷ []) (ok no_columns ∷ ok no_columns ∷ []) ([], 0)
      ≡ (ok 2, ([], 2)))
    × (write summing zstd
          (codes "a.parquet" ∷ [])
          (ok no_columns ∷ ok no_columns ∷ err empty_source ∷ [])
          ([], 0)
        ≡ (err empty_source, ([], 2)))
write-ok_or_err_example =
    write-ok_or_err summing summing_takes zstd zstd_default (codes "a.parquet" ∷ []) no_columns
      (no_columns ∷ []) empty_source [] ([], 0) as_zstd refl (refl, tt)
