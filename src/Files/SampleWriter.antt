-- ===== src/Files/SampleWriter.antt =====
-- A Parquet writer for the examples: it refuses the intervals, and keeps the schema of the open file and
-- how many rows it was given.
use transferred.Prelude.{
  ℕ, ◌+◌, ◌<◌, ◌≡◌, refl, List, [], ◌∷◌, ok, err, true, false, Bool, ◌&&◌, ltb, if◌then◌else◌,
  arith,
}
use transferred.Prelude.Int.{pos}
use transferred.Core.Error.{root, foreign}
use transferred.Core.Arrow.{ArrowType, ArrowField, field, interval}
use transferred.Files.Parquet.{ParquetFiles}
use transferred.Files.ParquetWriting.{Takes}
use transferred.Files.Footer.{CountsBatches}

abbrev pub State : Type 0
State = List ArrowField × ℕ

abbrev is_written : ArrowType → Bool
is_written (interval unit) = false
is_written t = true

abbrev pub all_written : List ArrowField → Bool
all_written [] = true
all_written (field name t nullable tag ∷ fields) = is_written t && all_written fields

-- The count of a footer stops at the largest `i64`.
abbrev footer_count : ℕ → ℕ
footer_count w = if ltb w 9223372036854775808 then w else 9223372036854775807

pub footer_count_fits : (w : ℕ) → footer_count w < 9223372036854775808
footer_count_fits w = ground arith

footer_count_add :
    (w n : ℕ) → footer_count w + n < 9223372036854775808 → footer_count (w + n) ≡ footer_count w + n
footer_count_add w n h = ground arith

abbrev pub summing : ParquetFiles State
summing = record {
  try_new = λ path schema compression w.
      if all_written schema
      then (ok tt, (schema, 0))
      else (err (root (foreign "the ParquetError" ∷ [])), w);
  write_batch = λ batch w.
      if all_written batch.schema
      then (ok tt, (w.0, w.1 + batch.num_rows))
      else (err (root (foreign "the ParquetError" ∷ [])), w);
  close = λ w. (ok (pos (footer_count w.1)), w);
  reader_new = λ path w. (ok tt, w);
  reader_build = λ w. (ok [], w);
}

abbrev pub summing_takes : Takes summing
summing_takes = record {
  IsWritable = λ schema. all_written schema ≡ true;
  schema_of = λ w. w.0;
  opened = λ path schema compression w. (schema, 0);
  after = λ batch w. (w.0, w.1 + batch.num_rows);
  count = λ w. footer_count w.1;
  closed = λ w. w;
  try_new_lem = λ path schema compression w written. rw written refl;
  schema_of-opened = λ path schema compression w. refl;
  write_batch_lem = λ batch w written same. rw written refl;
  schema_of-after = λ batch w. refl;
  close_lem = λ w. refl;
  few = λ w. footer_count_fits w.1;
}

pub summing-CountsBatches : CountsBatches summing_takes
summing-CountsBatches = record {
  opened_lem = λ path schema compression w. refl;
  after_lem = λ batch w h. footer_count_add w.1 batch.num_rows h;
}
