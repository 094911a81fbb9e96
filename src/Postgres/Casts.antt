-- ===== src/Postgres/Casts.antt =====
-- crates/transferred-postgres/src/destination/arrow_to_pg.rs: how an array of a column is read. Where arrow
-- panics, at a row past an array's end, the model reads a default; a batch has arrays of one length, and
-- the callers count its rows.
use transferred.Prelude.{
  ℕ, zero, suc, Text, List, [], ◌∷◌, Option, some, none, ok, err, Bool, true, false, not,
}
use transferred.Prelude.Int.{ℤ}
use transferred.Prelude.Bytes.{Bytes}
use transferred.Core.Error.{lit, foreign, Outcome, TransferredError, destination_failed}
use transferred.Core.Arrow.{
  Array, bools, int16s, int32s, int64s, float32s, float64s, strings, binaries, fixed_binaries,
  date32s, timestamps, intervals, decimals, structs, other_array, Arrays, MonthDayNano,
}

abbrev pub miscast : TransferredError
miscast = destination_failed (lit "column is not a " ∷ foreign "the type name" ∷ [])

-- A slot of an array: its value, and the default of the type at a null.
unfoldable pub value : {A : Type 0} → A → List (Option A) → ℕ → A
value d [] row = d
value d (none ∷ xs) zero = d
value d (some x ∷ xs) zero = x
value d (x ∷ xs) (suc row) = value d xs row

unfoldable pub null_at : {A : Type 0} → List (Option A) → ℕ → Bool
null_at [] row = false
null_at (none ∷ xs) zero = true
null_at (some x ∷ xs) zero = false
null_at (x ∷ xs) (suc row) = null_at xs row

unfoldable pub invalid_at : List Bool → ℕ → Bool
invalid_at [] row = false
invalid_at (valid ∷ xs) zero = not valid
invalid_at (valid ∷ xs) (suc row) = invalid_at xs row

-- `Array::is_null`
unfoldable pub is_null : Array → ℕ → Bool
unfolding null_at invalid_at
is_null (bools xs) row = null_at xs row
is_null (int16s xs) row = null_at xs row
is_null (int32s xs) row = null_at xs row
is_null (int64s xs) row = null_at xs row
is_null (float32s xs) row = null_at xs row
is_null (float64s xs) row = null_at xs row
is_null (strings xs) row = null_at xs row
is_null (binaries xs) row = null_at xs row
is_null (fixed_binaries xs) row = null_at xs row
is_null (date32s xs) row = null_at xs row
is_null (timestamps xs) row = null_at xs row
is_null (intervals xs) row = null_at xs row
is_null (decimals xs) row = null_at xs row
is_null (structs valid children) row = invalid_at valid row
is_null (other_array n) row = false

unfoldable pub as_bools : Array → Outcome (List (Option Bool))
as_bools (bools xs) = ok xs
as_bools _ = err miscast

unfoldable pub as_int16s : Array → Outcome (List (Option ℤ))
as_int16s (int16s xs) = ok xs
as_int16s _ = err miscast

unfoldable pub as_int32s : Array → Outcome (List (Option ℤ))
as_int32s (int32s xs) = ok xs
as_int32s _ = err miscast

unfoldable pub as_int64s : Array → Outcome (List (Option ℤ))
as_int64s (int64s xs) = ok xs
as_int64s _ = err miscast

unfoldable pub as_float32s : Array → Outcome (List (Option ℕ))
as_float32s (float32s xs) = ok xs
as_float32s _ = err miscast

unfoldable pub as_float64s : Array → Outcome (List (Option ℕ))
as_float64s (float64s xs) = ok xs
as_float64s _ = err miscast

unfoldable pub as_strings : Array → Outcome (List (Option Text))
as_strings (strings xs) = ok xs
as_strings _ = err miscast

unfoldable pub as_binaries : Array → Outcome (List (Option Bytes))
as_binaries (binaries xs) = ok xs
as_binaries _ = err miscast

unfoldable pub as_fixed_binaries : Array → Outcome (List (Option Bytes))
as_fixed_binaries (fixed_binaries xs) = ok xs
as_fixed_binaries _ = err miscast

unfoldable pub as_date32s : Array → Outcome (List (Option ℤ))
as_date32s (date32s xs) = ok xs
as_date32s _ = err miscast

unfoldable pub as_timestamps : Array → Outcome (List (Option ℤ))
as_timestamps (timestamps xs) = ok xs
as_timestamps _ = err miscast

unfoldable pub as_intervals : Array → Outcome (List (Option MonthDayNano))
as_intervals (intervals xs) = ok xs
as_intervals _ = err miscast

unfoldable pub as_decimals : Array → Outcome (List (Option ℤ))
as_decimals (decimals xs) = ok xs
as_decimals _ = err miscast

unfoldable pub as_structs : Array → Outcome Arrays
as_structs (structs valid children) = ok children
as_structs _ = err miscast
