-- ===== src/Py.antt =====
-- crates/transferred-py: the Python classes over the library.
pub mod Error
pub mod Report
pub mod Transfer
pub mod Formats
pub mod Postgres
pub mod Files
pub mod Arrow
pub mod Exceptions
pub mod ReportLines
pub mod SingleShot
pub mod TableTransfer
pub mod TableCopy
mod Examples
mod ReportExamples
mod TableExamples
