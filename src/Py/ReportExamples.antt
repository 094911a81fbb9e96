-- ===== src/Py/ReportExamples.antt =====
-- The theorem on a report at concrete values.
use transferred.Prelude.{◌≡◌, Text, codes, [], ◌∷◌, join, ◌/◌, arith}
use transferred.Prelude.Decimal.{display_nat}
use transferred.Py.Report.{Formatting, PyRunReport, str}
use transferred.Py.ReportLines.{str-lines}

-- Numbers in decimal, without separators or units.
abbrev decimal : Formatting
decimal = record {
  F64 = Text;
  as_secs_f64 = λ duration. display_nat (duration / 1000000000);
  three_decimals = λ digits. digits;
  debug_texts = λ objects. join (codes ", ") objects;
  separate_with_commas = display_nat;
  format_size = display_nat;
  format_duration = display_nat;
}

abbrev report : PyRunReport
report = record {
  inner = record {
    rows = 3;
    bytes_written = 20;
    written_objects = codes "out/part-00001.parquet" ∷ codes "out/part-00002.parquet" ∷ [];
    duration = 7999999;
  };
}

str-lines_example :
    str decimal report
    ≡ codes
        "RunReport:\n  rows: 3\n  written: 20\n  duration: 7000000\n  written objects:\n    out/part-00001.parquet\n    out/part-00002.parquet"
unfolding display_nat
str-lines_example = str-lines decimal report (omega arith)
