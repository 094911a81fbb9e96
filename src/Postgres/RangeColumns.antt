-- ===== src/Postgres/RangeColumns.antt =====
-- The rows of a range column, for destination/arrow_to_pg.rs and source/pg_to_arrow.rs.
use transferred.Prelude.{
  ℕ, ◌+◌, ◌<◌, ◌≤◌, ◌≡◌, ap, ◌∙◌, List, Option, none, some, ◌&&◌, Bool, false, length, arith,
}
use transferred.Core.Arrow.{Array, structs, bools}
use transferred.Postgres.Protocol.{Protocol, Cell, PgType}
use transferred.Postgres.PgToArrow
use transferred.Postgres.PgToArrow.{Decoding}
use transferred.Postgres.ArrowToPg
use transferred.Postgres.ArrowToPg.{Encoding}
use transferred.Postgres.Casts.{is_null}
use transferred.Postgres.Appending.{AppendsRanges}
use transferred.Postgres.Values
use transferred.Postgres.Values.{slot, limit, RangeSlots, HasRange}
use transferred.Postgres.Windows.{window, between}
use transferred.Postgres.Slots.{IsBelow, is_none, window_suc, get_elem?-slot}
use transferred.Postgres.RangeRoundTrip.{
  CarriesRanges, RangeRow, null_row, empty_row, bounds_row, IsFlag, content, five,
  append-write_range, invalid_at-get_elem?,
}
use transferred.Postgres.Carried.{Carried}

content_short : (cell : Cell) → IsBelow 65536 cell → length (content cell) < 65536
content_short none h = omega arith
content_short (some bytes) h = h

-- The slots of a range's row, whose bounds go as cells that are null where the bounds are.
RangeRow-slots :
    {is_valid lower_null upper_null lower_inc upper_inc is_empty : Bool} (lo hi : Cell)
    → RangeSlots is_valid lower_null upper_null lower_inc upper_inc is_empty
    → lower_null ≡ is_none lo
    → upper_null ≡ is_none hi
    → IsBelow 65536 lo
    → IsBelow 65536 hi
    → RangeRow is_valid lower_inc upper_inc is_empty lo hi
RangeRow-slots none none Values.null_row l u few few' = null_row
RangeRow-slots (some b) hi Values.null_row l u few few' = absurd (cc l)
RangeRow-slots none (some b) Values.null_row l u few few' = absurd (cc u)
RangeRow-slots none none Values.empty_row l u few few' = empty_row
RangeRow-slots (some b) hi Values.empty_row l u few few' = absurd (cc l)
RangeRow-slots none (some b) Values.empty_row l u few few' = absurd (cc u)
RangeRow-slots lo hi (Values.bounds_row ln un li ui lf uf) l u few few' =
    bounds_row lo hi li ui (flag lo li (rw l at lf)) (flag hi ui (rw u at uf))
      (omega (arith, content_short lo few, content_short hi few'))
  where
    flag : (cell : Cell) (inc : Bool) → is_none cell && inc ≡ false → IsFlag cell inc
    flag none inc h = h
    flag (some bytes) inc h = tt

module _ (P : Protocol) (appends : AppendsRanges P) (carries : CarriesRanges P) where
  pub range-Carried :
      (over : PgType) (e : Encoding) (d : Decoding) (valid : List Bool) (lowers uppers : Array)
      (lower_incs upper_incs empties : List (Option Bool)) (from row : ℕ)
      → limit e ≡ 65536
      → from ≤ row
      → row < length lower_incs
      → row < length upper_incs
      → row < length empties
      → HasRange valid lowers uppers lower_incs upper_incs empties row
      → Carried P e d lowers from row
      → Carried P e d uppers from row
      → Carried P
          (ArrowToPg.range over e)
          (PgToArrow.range d)
          (structs valid (five lowers uppers (bools lower_incs) (bools upper_incs) (bools empties)))
          from
          row
  unfolding is_null
  range-Carried over e d valid lowers uppers lower_incs upper_incs empties from row small le li ui
        em
        (is_valid, lower_inc, upper_inc, is_empty, here, lower_here, upper_here, empty_here, slots)
        (lo, lo_few, lo_null, lo_wrote, lo_read) (hi, hi_few, hi_null, hi_wrote, hi_read) =
      let kind =
        RangeRow-slots lo hi slots lo_null hi_null (rw small at lo_few) (rw small at hi_few) in
      let (cell, short, null, wrote, read) =
        append-write_range P appends carries e d valid lowers uppers lower_incs upper_incs empties
          row is_valid lower_inc upper_inc is_empty lo hi (window from row valid)
          (between from row lowers) (between from (row + 1) lowers) (between from row uppers)
          (between from (row + 1) uppers) (window from row lower_incs) (window from row upper_incs)
          (window from row empties) over kind here lower_here upper_here empty_here lo_wrote
          hi_wrote lo_read hi_read in
      (
        cell,
        short,
        invalid_at-get_elem? valid row here ∙ null,
        wrote,
        rw
            (
              window_suc valid from row le here,
              window_suc lower_incs from row le
                  (get_elem?-slot lower_incs row li ∙ ap some lower_here),
              window_suc upper_incs from row le
                  (get_elem?-slot upper_incs row ui ∙ ap some upper_here),
              window_suc empties from row le (get_elem?-slot empties row em ∙ ap some empty_here),
            )
            read,
      )
