-- ===== src/Py/TableExamples.antt =====
-- The theorem on a whole transfer, at a table of two rows.
use mathlib.Core.List.{zip, flatten}
use transferred.Postgres.Chunks.{copy_into}
use transferred.Postgres.Samples.{old}
use transferred.Prelude.{◌++◌}
use transferred.Core.Report.{RunReport}
use transferred.Postgres.Constants.{copy_header, copy_trailer}
use transferred.Postgres.Destination.{Loader, loader_new, split_last, staging_name, qualify}
use transferred.Postgres.Committed.{Swapped}
use transferred.Postgres.ArrowToPg.{encoding_of}
use transferred.Postgres.Encoder.{encoder_new}
use transferred.Py.Report
use transferred.Prelude.{◌≡◌, refl, codes, [], ◌∷◌, some, none, ok, false, arith, Text}
use transferred.Prelude.Int.{pos}
use transferred.Prelude.Bytes.{be_i16, be_i32, starts_with}
use transferred.Postgres.Client.{Driver}
use transferred.Postgres.Connection.{connect, split_verify_full}
use transferred.Postgres.PgToArrow.{arrow_type, decoding_of, field_of}
use transferred.Postgres.Decoder.{derive, column_new, fresh_builder}
use transferred.Postgres.Write.{write}
use transferred.Postgres.Encoder.{
  write_row, write_fields, write_field, column_write, field_len, patch,
}
use transferred.Postgres.Values
use transferred.Postgres.Windows.{length-window}
use transferred.Postgres.Samples.{
  Server, client, accepts, plain, plain-AppendsRanges, maker, batch, encoder, schema,
}
use transferred.Postgres.FaithfulSample.{plain-IsFaithful}
use transferred.Postgres.FaithfulRanges.{plain-CarriesRanges}
use transferred.Postgres.SampleTable.{ids, messages, answered, answering, rows_between, serves}
use transferred.Files.FileSystem.{FileSystem}
use transferred.Files.Parquet.{ParquetFiles, codec, reader}
use transferred.Files.Parquet
use transferred.Files.Destination.{tolerate, output_filename, padded}
use transferred.Files.Destination as Writing
use transferred.Files.Totals.{Measures}
use transferred.Files.Succeeding.{Performs}
use transferred.Prelude.Decimal.{display_nat}
use transferred.Py.Transfer.{PyTransfer, new, run}
use transferred.Py.Postgres as PyPostgres
use transferred.Py.Formats as PyFiles
use transferred.Py.TableCopy.{run-copied}
use transferred.Files.SampleWriter.{State, summing, summing_takes, summing-CountsBatches}
use transferred.Py.TableTransfer.{Ends, run-table}

-- Over the world of the writer.
abbrev disk : FileSystem State
disk = record {
  create_dir_all = λ path w. (ok tt, w);
  remove_dir_all = λ path w. (ok tt, w);
  rename = λ from to w. (ok tt, w);
  create = λ path w. (ok tt, w);
  metadata_len = λ path w. (ok 10, w);
  open_file = λ path w. (ok tt, w);
  is_dir = λ w path. false;
  glob = λ w pattern_text. ok [];
}

disk-Performs : Performs disk
unfolding tolerate
disk-Performs = record {
  create_dir_all_lem = λ path w. refl;
  remove_dir_all_lem = λ path w. refl;
  create_lem = λ path w. refl;
  rename_lem = λ from to w. refl;
}

abbrev disk_measures : Measures disk
disk_measures = record { size = λ w path. 10; metadata_lem = λ path w. refl }

abbrev local : Driver State
local = record {
  Config = Text;
  Connector = Unit {0};
  parse_config = λ dsn. ok dsn;
  encrypting_connector = tt;
  verifying_connector = λ w. (ok tt, w);
  connect_with = λ config connector w. (ok tt, w);
}

run-table_example :
    (transfer : PyTransfer State) × ((new
        (PyPostgres.new_source plain
          (answering State)
          local
          maker
          (codes "host=db")
          (codes "users"))
        (PyFiles.new_destination disk
          (λ from to. 5)
          (codes "out" ∷ [])
          (PyFiles.init (reader summing) (codec summing (Parquet.new Parquet.zstd)))
          false)).0
      ≡ ok transfer)
    × Ends 2 (codes "out/part-00001.parquet") (run transfer ([], 7)).0
unfolding zip fresh_builder arrow_type write_row write_fields write_field column_write write
    field_len patch be_i32 be_i16 derive column_new decoding_of field_of connect split_verify_full
    starts_with output_filename padded display_nat codec Writing.new
run-table_example =
    run-table disk disk-Performs disk_measures summing summing_takes summing-CountsBatches
      Parquet.zstd (codes "out" ∷ []) false (λ from to. 5) plain plain-IsFaithful
      plain-AppendsRanges plain-CarriesRanges 2 encoder batch (ids ∷ []) refl refl (omega arith)
      ((Values.Reads.int4, (omega arith, (tt, tt)), refl, refl), tt) schema rows_between
      (λ from to le h. refl)
      (λ from to le h. (refl, length-window (some (pos 7) ∷ none ∷ []) from to le h)) refl
      (answering State) maker local (codes "host=db") (codes "users") (codes "users") answered
      messages ([], 7) ([], 7) ([], 7) ([], 7) ([], 7) (omega arith) refl refl refl refl refl refl

abbrev remote : Driver Server
remote = record {
  Config = Text;
  Connector = Unit {0};
  parse_config = λ dsn. ok dsn;
  encrypting_connector = tt;
  verifying_connector = λ w. (ok tt, w);
  connect_with = λ config connector w. (ok tt, w);
}

abbrev copies : Loader
copies = record {
  target = codes "copies";
  staging = codes "copies__transferred_staging";
  target_name = codes "copies";
}

run-copied_example :
    (transfer : PyTransfer Server) × (report : RunReport) × (loaded : Server) × (w' : Server)
    × ((new
          (PyPostgres.new_source plain
            (answering Server)
            remote
            maker
            (codes "host=a")
            (codes "users"))
          (PyPostgres.new_destination plain client remote
            (λ from to. 5)
            (codes "host=b")
            (codes "copies"))).0
        ≡ ok transfer)
    × (run transfer old ≡ (ok (Report.new report), record { inner = none }, w'))
    × (report.written_objects ≡ codes "copies" ∷ [])
    × (accepts.sent loaded
        ≡ (copy_into copies.staging, (copy_header ++ flatten messages) ++ be_i16 copy_trailer))
    × Swapped client plain copies loaded w'
unfolding zip fresh_builder arrow_type write_row write_fields write_field column_write write
    field_len patch be_i32 be_i16 derive column_new decoding_of field_of connect split_verify_full
    starts_with encoder_new encoding_of loader_new split_last staging_name qualify
run-copied_example =
    run-copied plain plain-IsFaithful plain-AppendsRanges plain-CarriesRanges (answering Server)
      client maker remote remote accepts serves (λ from to. 5) 2 encoder batch (ids ∷ []) schema
      rows_between (codes "host=a") (codes "users") (codes "users") (codes "host=b")
      (codes "copies") answered messages copies old old old old old old old refl refl refl
      (omega arith) ((Values.Reads.int4, (omega arith, (tt, tt)), refl, refl), tt)
      (λ from to le h. refl)
      (λ from to le h. (refl, refl, length-window (some (pos 7) ∷ none ∷ []) from to le h))
      (omega arith) refl refl refl refl refl refl refl refl
