-- ===== src/Core/Report.antt =====
-- crates/transferred-core/src/report.rs
use transferred.Prelude.{ℕ, Text, List}

-- `rows` and `bytes_written` are `u64`, the duration is in nanoseconds.
pub record RunReport : Type 0 where
  pub rows : ℕ
  pub bytes_written : ℕ
  pub written_objects : List Text
  pub duration : ℕ
