-- ===== src/Py/Report.antt =====
-- crates/transferred-py/src/report.rs: a run's statistics as a Python object.
use transferred.Prelude.{
  ℕ, ◌-◌, ◌*◌, ◌/◌, ◌^◌, ltb, if◌then◌else◌, Text, codes, List, [], ◌∷◌, ◌++◌,
}
use transferred.Prelude.Decimal.{display_nat}
use transferred.Core.Report.{RunReport}

-- What `std`, `thousands`, `humansize` and `humantime` print; a duration is in nanoseconds.
pub record Formatting : Type 1 where
  pub F64 : Type 0
  pub as_secs_f64 : ℕ → F64
  -- `{:.3}` of a float, and `{:?}` of a list of strings.
  pub three_decimals : F64 → Text
  pub debug_texts : List Text → Text
  pub separate_with_commas : ℕ → Text
  -- `format_size(_, BINARY)`
  pub format_size : ℕ → Text
  pub format_duration : ℕ → Text

pub record PyRunReport : Type 0 where
  pub inner : RunReport

unfoldable pub new : RunReport → PyRunReport
new inner = record { inner = inner }

unfoldable pub rows : PyRunReport → ℕ
rows self = self.inner.rows

unfoldable pub bytes_written : PyRunReport → ℕ
bytes_written self = self.inner.bytes_written

unfoldable pub written_objects : PyRunReport → List Text
written_objects self = self.inner.written_objects

-- `u64::try_from(duration.as_millis()).unwrap_or(u64::MAX)`, of nanoseconds.
unfoldable pub whole_millis : ℕ → ℕ
whole_millis duration =
    let millis = duration / 1000000 in if ltb millis (2 ^ 64) then millis else 2 ^ 64 - 1

-- `Duration::from_millis`
unfoldable pub from_millis : ℕ → ℕ
from_millis millis = millis * 1000000

-- The fold over the objects, from the text so far.
unfoldable pub fold_written : Text → List Text → Text
fold_written string [] = string
fold_written string (written ∷ rest) = fold_written (string ++ (codes "\n    " ++ written)) rest

module _ (F : Formatting) where
  unfoldable pub duration_seconds : PyRunReport → F.F64
  duration_seconds self = F.as_secs_f64 self.inner.duration

  -- `__repr__`
  unfoldable pub repr : PyRunReport → Text
  repr self =
      codes "RunReport(rows="
      ++ (display_nat self.inner.rows
          ++ (codes ", bytes_written="
              ++ (display_nat self.inner.bytes_written
                  ++ (codes ", written_objects="
                      ++ (F.debug_texts self.inner.written_objects
                          ++ (codes ", duration_seconds="
                              ++ (F.three_decimals (F.as_secs_f64 self.inner.duration)
                                  ++ codes ")")))))))

  -- `__str__`
  unfoldable pub str : PyRunReport → Text
  unfolding whole_millis from_millis fold_written
  str self =
      codes "RunReport:\n  rows: "
      ++ (F.separate_with_commas self.inner.rows
          ++ (codes "\n  written: "
              ++ (F.format_size self.inner.bytes_written
                  ++ (codes "\n  duration: "
                      ++ (F.format_duration (from_millis (whole_millis self.inner.duration))
                          ++ (codes "\n  written objects:"
                              ++ fold_written [] self.inner.written_objects))))))
