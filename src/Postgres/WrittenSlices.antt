-- ===== src/Postgres/WrittenSlices.antt =====
-- The rows of a slice of a batch, as `Encoding::write` in destination/arrow_to_pg.rs writes them.
use transferred.Prelude.{
  ℕ, zero, suc, ◌+◌, ◌<◌, ◌≡◌, refl, sym, ◌∙◌, List, [], ◌∷◌, Option, some, none, Bool, true, false,
  arith,
}
use mathlib.Core.Path.{fun_ext}
use transferred.Prelude.Int.{pos}
use transferred.Prelude.Bytes.{Bytes}
use transferred.Core.Error.{Outcome}
use transferred.Core.Arrow.{
  Array, bools, int16s, int32s, int64s, float32s, float64s, strings, binaries, fixed_binaries,
  date32s, timestamps, intervals, decimals, structs, array_then, no_arrays,
}
use transferred.Postgres.Protocol.{Protocol, IsNull}
use transferred.Postgres.Write.{
  write, unless_null, put_text, write_bounds, write_range, bound_of, zero_interval,
}
use transferred.Postgres.Casts.{null_at, value, invalid_at, is_null, as_bools, as_structs}
use transferred.Postgres.ArrowToPg.{Encoding}
use transferred.Postgres.Values.{
  IsStorable, Reads, bool, int2, int4, int8, float4, float8, text, json, bytea, uuid, date,
  timestamp, timestamptz, interval, numeric, geo, opaque, range,
}
use transferred.Postgres.Windows.{window, between}
use transferred.Postgres.PgToArrow.{Decoding}

-- What is read of a list at a place, past the end included, is read of a window over it.
module _ {A B : Type 0} (f : List A → ℕ → B) (nil : (i j : ℕ) → f [] i ≡ f [] j)
    (head : (x : A) (xs ys : List A) → f (x ∷ xs) zero ≡ f (x ∷ ys) zero)
    (tail : (x : A) (xs : List A) (i : ℕ) → f (x ∷ xs) (suc i) ≡ f xs i) where
  at-window :
      (xs : List A) (from to row k : ℕ)
      → k ≡ from + row
      → k < to
      → f (window from to xs) row ≡ f xs k
  at-window [] zero zero row k h lt = nil row k
  at-window [] zero (suc to) row k h lt = nil row k
  at-window [] (suc from) zero row k h lt = nil row k
  at-window [] (suc from) (suc to) row k h lt = nil row k
  at-window (x ∷ xs) from zero row k h lt = absurd (omega arith)
  at-window (x ∷ xs) zero (suc to) zero zero h lt = head x _ xs
  at-window (x ∷ xs) zero (suc to) zero (suc k) h lt = absurd (omega arith)
  at-window (x ∷ xs) zero (suc to) (suc row) zero h lt = absurd (omega arith)
  at-window (x ∷ xs) zero (suc to) (suc row) (suc k) h lt =
      tail x _ row ∙ at-window xs zero to row k (omega arith) (omega arith) ∙ sym (tail x xs k)
  at-window (x ∷ xs) (suc from) (suc to) row zero h lt = absurd (omega arith)
  at-window (x ∷ xs) (suc from) (suc to) row (suc k) h lt =
      at-window xs from to row k (omega arith) (omega arith) ∙ sym (tail x xs k)

null_at-head :
    {A : Type 0} (x : Option A) (xs ys : List (Option A))
    → null_at (x ∷ xs) zero ≡ null_at (x ∷ ys) zero
unfolding null_at
null_at-head none xs ys = refl
null_at-head (some x) xs ys = refl

value-head :
    {A : Type 0} (default : A) (x : Option A) (xs ys : List (Option A))
    → value default (x ∷ xs) zero ≡ value default (x ∷ ys) zero
unfolding value
value-head default none xs ys = refl
value-head default (some x) xs ys = refl

null_at-tail :
    {A : Type 0} (x : Option A) (xs : List (Option A)) (i : ℕ)
    → null_at (x ∷ xs) (suc i) ≡ null_at xs i
unfolding null_at
null_at-tail none xs i = refl
null_at-tail (some x) xs i = refl

value-tail :
    {A : Type 0} (default : A) (x : Option A) (xs : List (Option A)) (i : ℕ)
    → value default (x ∷ xs) (suc i) ≡ value default xs i
unfolding value
value-tail default none xs i = refl
value-tail default (some x) xs i = refl

module _ (from to row k : ℕ) (here : k ≡ from + row) (lt : k < to) where
  pub null_at-window :
      {A : Type 0} (xs : List (Option A)) → null_at (window from to xs) row ≡ null_at xs k
  unfolding null_at
  null_at-window xs =
      at-window null_at (λ i j. refl) null_at-head null_at-tail xs from to row k here lt

  pub value-window :
      {A : Type 0} (default : A) (xs : List (Option A))
      → value default (window from to xs) row ≡ value default xs k
  unfolding value
  value-window default xs =
      at-window (value default) (λ i j. refl) (value-head default) (value-tail default) xs from to
        row k here lt

  pub invalid_at-window : (xs : List Bool) → invalid_at (window from to xs) row ≡ invalid_at xs k
  unfolding invalid_at
  invalid_at-window xs =
      at-window invalid_at (λ i j. refl) (λ x xs ys. refl) (λ x xs i. refl) xs from to row k here lt

module _ (P : Protocol) (from to row k : ℕ) (here : k ≡ from + row) (lt : k < to) where
  bound_of-window :
      (written written' : Outcome (IsNull × Bytes)) (flags : List (Option Bool))
      → written ≡ written'
      → bound_of written (bools (window from to flags)) row ≡ bound_of written' (bools flags) k
  unfolding bound_of as_bools
  bound_of-window written written' flags same =
      rw (same, value-window from to row k here lt false flags) refl

  write_bounds-window :
      (element : Array → ℕ → Bytes → Outcome (IsNull × Bytes)) (is_empty : Bool)
      (lowers uppers : Array) (lower_incs upper_incs : List (Option Bool)) (buf : Bytes)
      → ((out : Bytes) → element (between from to lowers) row out ≡ element lowers k out)
      → ((out : Bytes) → element (between from to uppers) row out ≡ element uppers k out)
      → write_bounds P element is_empty
          (between from to lowers)
          (between from to uppers)
          (bools (window from to lower_incs))
          (bools (window from to upper_incs))
          row
          buf
        ≡ write_bounds P element is_empty lowers uppers (bools lower_incs) (bools upper_incs) k buf
  unfolding write_bounds
  write_bounds-window element true lowers uppers lower_incs upper_incs buf lo hi = refl
  write_bounds-window element false lowers uppers lower_incs upper_incs buf lo hi =
      let los = fun_ext (λ out. bound_of-window _ _ lower_incs (lo out)) in
      let his = fun_ext (λ out. bound_of-window _ _ upper_incs (hi out)) in rw (los, his) refl

  -- A row of a slice is written as the row that it is of the whole column.
  pub write-between :
      {e : Encoding} {d : Decoding}
      → Reads e d
      → (a : Array) → IsStorable P e a
      → (buf : Bytes) → write P e (between from to a) row buf ≡ write P e a k buf
  unfolding write unless_null is_null put_text as_structs write_range as_bools
  write-between bool (bools xs) st buf =
      rw (null_at-window from to row k here lt xs, value-window from to row k here lt false xs) refl
  write-between int2 (int16s xs) st buf =
      rw (null_at-window from to row k here lt xs, value-window from to row k here lt (pos 0) xs)
        refl
  write-between int4 (int32s xs) st buf =
      rw (null_at-window from to row k here lt xs, value-window from to row k here lt (pos 0) xs)
        refl
  write-between int8 (int64s xs) st buf =
      rw (null_at-window from to row k here lt xs, value-window from to row k here lt (pos 0) xs)
        refl
  write-between float4 (float32s xs) st buf =
      rw (null_at-window from to row k here lt xs, value-window from to row k here lt 0 xs) refl
  write-between float8 (float64s xs) st buf =
      rw (null_at-window from to row k here lt xs, value-window from to row k here lt 0 xs) refl
  write-between text (strings xs) st buf =
      rw (null_at-window from to row k here lt xs, value-window from to row k here lt [] xs) refl
  write-between json (strings xs) st buf =
      rw (null_at-window from to row k here lt xs, value-window from to row k here lt [] xs) refl
  write-between bytea (binaries xs) st buf =
      rw (null_at-window from to row k here lt xs, value-window from to row k here lt [] xs) refl
  write-between (geo written read) (binaries xs) st buf =
      rw (null_at-window from to row k here lt xs, value-window from to row k here lt [] xs) refl
  write-between (opaque name vendor) (binaries xs) st buf =
      rw (null_at-window from to row k here lt xs, value-window from to row k here lt [] xs) refl
  write-between uuid (fixed_binaries xs) st buf =
      rw (null_at-window from to row k here lt xs, value-window from to row k here lt [] xs) refl
  write-between date (date32s xs) st buf =
      rw (null_at-window from to row k here lt xs, value-window from to row k here lt (pos 0) xs)
        refl
  write-between timestamp (timestamps xs) st buf =
      rw (null_at-window from to row k here lt xs, value-window from to row k here lt (pos 0) xs)
        refl
  write-between timestamptz (timestamps xs) st buf =
      rw (null_at-window from to row k here lt xs, value-window from to row k here lt (pos 0) xs)
        refl
  write-between interval (intervals xs) st buf =
      rw
        (
          null_at-window from to row k here lt xs,
          value-window from to row k here lt (zero_interval P) xs,
        )
        refl
  write-between (numeric precision scale) (decimals xs) st buf =
      rw (null_at-window from to row k here lt xs, value-window from to row k here lt (pos 0) xs)
        refl
  write-between (range over {e} {d} reads)
        (structs valid (
          array_then lowers (
            array_then uppers (
              array_then
                (bools lower_incs)
                (array_then (bools upper_incs) (array_then (bools empties) no_arrays))))))
        (small, lower_ok, upper_ok, rows) buf =
      rw
        (
          invalid_at-window from to row k here lt valid,
          value-window from to row k here lt false empties,
          write_bounds-window (write P e) (value false empties k) lowers uppers lower_incs
              upper_incs buf (write-between reads lowers lower_ok)
              (write-between reads uppers upper_ok),
        )
        refl
  write-between _ a st buf = absurd st
