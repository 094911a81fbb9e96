-- ===== src/Postgres/RangeRoundTrip.antt =====
-- A range as it is written, and read back: `write_range` in destination/arrow_to_pg.rs against
-- `append_range` in source/pg_to_arrow.rs.
use transferred.Prelude.{
  ℕ, zero, suc, ◌+◌, ◌<◌, ◌≡◌, refl, ap, sym, ◌∙◌, List, [], ◌∷◌, ◌++◌, append-nil, Option, some,
  none, ok, length, Bool, true, false, not, get_elem?,
}
use transferred.Prelude.Bytes.{Bytes}
use transferred.Core.Arrow.{Array, Arrays, structs, bools, array_then, no_arrays}
use transferred.Postgres.Protocol.{
  Protocol, Cell, IsNull, not_null, RangeBound, inclusive, exclusive, unbounded, BoundWriter, empty,
  nonempty, PgType,
}
use transferred.Postgres.PgToArrow
use transferred.Postgres.PgToArrow.{Decoding}
use transferred.Postgres.ArrowToPg
use transferred.Postgres.ArrowToPg.{Encoding}
use transferred.Postgres.Append.{
  append, append_range, append_children, append_tag, bound, bounds_of, is_empty_range,
  is_some_range,
}
use transferred.Postgres.Write.{write, write_range, write_bounds, bound_of, pick_bound, unless_null}
use transferred.Postgres.Casts.{value, is_null, invalid_at, as_bools, as_structs}
use transferred.Postgres.Appending.{AppendsRanges, write-behind, behind}
use transferred.Postgres.RowRoundTrip.{written_of, IsShort}
use transferred.Postgres.Values.{slot}
use transferred.Postgres.Slots.{is_none}

-- A bound by its value's bytes and whether it is inclusive: as it is announced to the writer of a range,
-- and as it is parsed. None is infinite.
abbrev pub announced : Cell → Bool → RangeBound IsNull
announced none inc = unbounded
announced (some bytes) true = inclusive not_null
announced (some bytes) false = exclusive not_null

abbrev pub parsed : Cell → Bool → RangeBound Cell
parsed none inc = unbounded
parsed (some bytes) true = inclusive (some bytes)
parsed (some bytes) false = exclusive (some bytes)

abbrev pub content : Cell → Bytes
content none = []
content (some bytes) = bytes

-- A writer of that bound, behind whatever the buffer holds.
abbrev pub IsBoundWriter : BoundWriter → Cell → Bool → Type 0
IsBoundWriter w cell inc = (out : Bytes) → w out ≡ ok (announced cell inc, out ++ content cell)

-- What `postgres-protocol` documents of a range: what is written parses as its bounds, and takes nine
-- bytes more than they do at most.
pub record CarriesRanges (P : Protocol) : Type 0 where
  pub empty_short : length (P.empty_range_to_sql []) < 2147483648
  pub empty_lem : P.range_from_sql (P.empty_range_to_sql []) ≡ ok empty
  pub range_lem :
      (write_lo write_hi : BoundWriter) (lo hi : Cell) (lo_inc hi_inc : Bool)
      → IsBoundWriter write_lo lo lo_inc
      → IsBoundWriter write_hi hi hi_inc
      → length (content lo) + length (content hi) < 2147483639
      → (bytes : Bytes) × (length bytes < 2147483648)
        × (P.range_to_sql write_lo write_hi [] ≡ ok bytes)
        × (P.range_from_sql bytes ≡ ok (nonempty (parsed lo lo_inc) (parsed hi hi_inc)))

-- An infinite bound is not inclusive.
abbrev pub IsFlag : Cell → Bool → Type 0
IsFlag none inc = inc ≡ false
IsFlag (some bytes) inc = Unit

-- The rows of a range column as the source makes them: whether the row is valid, the three flags, and
-- the cells of the bounds.
pub data RangeRow : Bool → Bool → Bool → Bool → Cell → Cell → Type 0 where
  null_row : RangeRow false false false false none none
  empty_row : RangeRow true false false true none none
  bounds_row :
      (lo hi : Cell) (lo_inc hi_inc : Bool)
      → IsFlag lo lo_inc
      → IsFlag hi hi_inc
      → length (content lo) + length (content hi) < 2147483639
      → RangeRow true lo_inc hi_inc false lo hi

abbrev pub five : Array → Array → Array → Array → Array → Arrays
five lower upper lower_inc upper_inc empty_flag = array_then lower (
    array_then upper
      (array_then lower_inc (array_then upper_inc (array_then empty_flag no_arrays))))

value-slot :
    {A : Type 0} (d : A) (xs : List (Option A)) (row : ℕ) {v : A}
    → slot xs row ≡ some v
    → value d xs row ≡ v
unfolding value
value-slot d [] row h = absurd (cc h)
value-slot d (none ∷ xs) zero h = absurd (cc h)
value-slot d (some x ∷ xs) zero h = cc
value-slot d (x ∷ xs) (suc row) h = value-slot d xs row h

pub invalid_at-get_elem? :
    (xs : List Bool) (row : ℕ) {v : Bool} → get_elem? xs row ≡ some v → invalid_at xs row ≡ not v
unfolding invalid_at
invalid_at-get_elem? [] row h = absurd (cc h)
invalid_at-get_elem? (x ∷ xs) zero h = ap not (some_injective h)
  where
    some_injective : {a b : Bool} → ◌≡◌ {A = Option Bool} (some a) (some b) → a ≡ b
    some_injective e = cc
invalid_at-get_elem? (x ∷ xs) (suc row) h = invalid_at-get_elem? xs row h

picked :
    (cell : Cell) (inc : Bool) (out : Bytes)
    → ◌≡◌ {A = RangeBound IsNull × Bytes}
        (pick_bound (written_of cell).0 inc, out ++ (written_of cell).1)
        (announced cell inc, out ++ content cell)
unfolding pick_bound
picked none inc out = refl
picked (some bytes) true out = refl
picked (some bytes) false out = refl

bound-parsed :
    (cell : Cell) (inc : Bool)
    → IsFlag cell inc
    → ◌≡◌ {A = Cell × Bool} (bound (parsed cell inc)) (cell, inc)
unfolding bound
bound-parsed none inc h = ap (λ i. (none, i)) (sym h)
bound-parsed (some bytes) true h = refl
bound-parsed (some bytes) false h = refl

module _ (P : Protocol) (appends : AppendsRanges P) (carries : CarriesRanges P) (e : Encoding)
    (d : Decoding) where
  bound_of-IsBoundWriter :
      (values : Array) (flags : List (Option Bool)) (row : ℕ) (cell : Cell) (inc : Bool)
      → write P e values row [] ≡ ok (written_of cell)
      → slot flags row ≡ some inc
      → IsBoundWriter (λ out. bound_of (write P e values row out) (bools flags) row) cell inc
  unfolding bound_of as_bools
  bound_of-IsBoundWriter values flags row cell inc wrote flag out =
      let at_front : write P e values row out
          ≡ ok ((written_of cell).0, out ++ (written_of cell).1) =
        (rw append-nil at (write-behind P appends e values row out [])) ∙ ap (behind out) wrote in
      rw (at_front, value-slot false flags row flag) (ap ok (picked cell inc out))

  -- Over range writers that append and whose ranges parse as their bounds: a row of a range column
  -- as the source makes them, null, empty, or with two bounds of together less than 2 GiB where an
  -- infinite one is not inclusive, whose bounds are written as cells that are appended to two
  -- builders, is written as a cell, a null one exactly for a null row, that is appended to a
  -- builder of ranges as that row: its validity, its flags, and its bounds as those cells are
  -- appended.
  pub append-write_range :
      (valid : List Bool) (lowers uppers : Array)
      (lower_incs upper_incs empties : List (Option Bool)) (row : ℕ)
      (is_valid lo_inc hi_inc is_empty : Bool) (lo hi : Cell) (flags : List Bool)
      (lower lower' upper upper' : Array) (lower_flags upper_flags empty_flags : List (Option Bool))
      (over : PgType)
      → RangeRow is_valid lo_inc hi_inc is_empty lo hi
      → get_elem? valid row ≡ some is_valid
      → slot lower_incs row ≡ some lo_inc
      → slot upper_incs row ≡ some hi_inc
      → slot empties row ≡ some is_empty
      → write P e lowers row [] ≡ ok (written_of lo)
      → write P e uppers row [] ≡ ok (written_of hi)
      → append P d lower lo ≡ ok lower'
      → append P d upper hi ≡ ok upper'
      → (cell : Cell) × IsShort cell
        × (not is_valid ≡ is_none cell)
        × (write P
              (ArrowToPg.range over e)
              (structs valid
                (five lowers uppers (bools lower_incs) (bools upper_incs) (bools empties)))
              row
              []
            ≡ ok (written_of cell))
        × (append P
              (PgToArrow.range d)
              (structs flags
                (five lower upper (bools lower_flags) (bools upper_flags) (bools empty_flags)))
              cell
            ≡ ok (
                structs (flags ++ is_valid ∷ []) (
                  five lower' upper'
                    (bools (lower_flags ++ some lo_inc ∷ []))
                    (bools (upper_flags ++ some hi_inc ∷ []))
                    (bools (empty_flags ++ some is_empty ∷ [])))))
  unfolding write unless_null is_null as_structs write_range as_bools write_bounds append
      append_range append_children append_tag bound bounds_of is_empty_range is_some_range
  append-write_range valid lowers uppers lower_incs upper_incs empties row _ _ _ _ _ _ flags lower
        lower' upper upper' lower_flags upper_flags empty_flags over null_row is_valid li ui
        is_empty wrote_lo wrote_hi lo hi =
      (none, tt, refl, rw (invalid_at-get_elem? valid row is_valid) refl, rw (lo, hi) refl)
  append-write_range valid lowers uppers lower_incs upper_incs empties row _ _ _ _ _ _ flags lower
        lower' upper upper' lower_flags upper_flags empty_flags over empty_row is_valid li ui
        is_empty wrote_lo wrote_hi lo hi =
      (
        some (P.empty_range_to_sql []),
        carries.empty_short,
        refl,
        rw (invalid_at-get_elem? valid row is_valid, value-slot false empties row is_empty) refl,
        rw carries.empty_lem (rw (lo, hi) refl),
      )
  append-write_range valid lowers uppers lower_incs upper_incs empties row _ _ _ _ _ _ flags lower
        lower' upper upper' lower_flags upper_flags empty_flags over
        (bounds_row lo_cell hi_cell lo_inc hi_inc lo_flag hi_flag few) is_valid li ui is_empty
        wrote_lo wrote_hi lo hi =
      let (bytes, short, sent, read) =
        carries.range_lem _ _ lo_cell hi_cell lo_inc hi_inc
          (bound_of-IsBoundWriter lowers lower_incs row lo_cell lo_inc wrote_lo li)
          (bound_of-IsBoundWriter uppers upper_incs row hi_cell hi_inc wrote_hi ui) few in
      (
        some bytes,
        short,
        refl,
        rw (invalid_at-get_elem? valid row is_valid, value-slot false empties row is_empty, sent)
            refl,
        rw (read, bound-parsed lo_cell lo_inc lo_flag, bound-parsed hi_cell hi_inc hi_flag, lo, hi)
            refl,
      )
