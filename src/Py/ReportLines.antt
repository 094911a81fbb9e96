-- ===== src/Py/ReportLines.antt =====
-- How a run's report is printed, for report.rs of the bindings.
use transferred.Prelude.{
  ℕ, ◌-◌, ◌%◌, ◌<◌, ◌≡◌, refl, sym, ap, ◌∙◌, Text, codes, List, [], ◌∷◌, ◌++◌, map, join, arith,
  append_assoc, append-nil,
}
use transferred.Py.Report.{Formatting, PyRunReport, str, whole_millis, from_millis, fold_written}

-- The lines of a report.
abbrev pub lines : Formatting → PyRunReport → List Text
lines F self =
    codes "RunReport:"
    ∷ (codes "  rows: " ++ F.separate_with_commas self.inner.rows)
    ∷ (codes "  written: " ++ F.format_size self.inner.bytes_written)
    ∷ (codes "  duration: "
        ++ F.format_duration (self.inner.duration - self.inner.duration % 1000000))
    ∷ codes "  written objects:"
    ∷ map (λ written. codes "    " ++ written) self.inner.written_objects

abbrev indented : Text → Text
indented written = codes "    " ++ written

-- The objects, each on a line of its own behind what there is.
abbrev behind : List Text → Text
behind [] = []
behind (written ∷ rest) = codes "\n" ++ (indented written ++ behind rest)

fold_written-behind :
    (string : Text) (objects : List Text) → fold_written string objects ≡ string ++ behind objects
unfolding fold_written
fold_written-behind string [] = sym (append-nil string)
fold_written-behind string (written ∷ rest) =
    fold_written-behind (string ++ (codes "\n    " ++ written)) rest
    ∙ append_assoc string (codes "\n    " ++ written) (behind rest)

behind-join :
    (string : Text) (objects : List Text)
    → string ++ behind objects ≡ join (codes "\n") (string ∷ map indented objects)
behind-join string [] = append-nil string
behind-join string (written ∷ rest) =
    ap (λ lines. string ++ (codes "\n" ++ lines)) (behind-join (indented written) rest)

shown_duration :
    (duration : ℕ)
    → duration < 18446744073709551616000000
    → from_millis (whole_millis duration) ≡ duration - duration % 1000000
unfolding from_millis whole_millis
shown_duration duration h = ground arith

-- A report whose duration a u64 of milliseconds can hold prints as its lines with a newline between
-- them: the rows, the bytes, the duration cut to whole milliseconds, and every written object
-- indented on a line of its own.
pub str-lines :
    (F : Formatting) (self : PyRunReport)
    → self.inner.duration < 18446744073709551616000000
    → str F self ≡ join (codes "\n") (lines F self)
unfolding str
str-lines F self h =
    rw (shown_duration self.inner.duration h, fold_written-behind [] self.inner.written_objects)
      (rw (← behind-join (codes "  written objects:") self.inner.written_objects) refl)
