-- ===== src/Postgres/Windows.antt =====
-- The rows of an array from one on and up to another, for the batches that source.rs cuts a table into.
use transferred.Prelude.{
  ◌≤◌, ◌-◌, arith, refl, ap, ℕ, zero, suc, ◌≡◌, ◌∙◌, List, [], ◌∷◌, drop, length, take,
}
use transferred.Core.Arrow.{
  Array, bools, int16s, int32s, int64s, float32s, float64s, strings, binaries, fixed_binaries,
  date32s, timestamps, intervals, decimals, structs, other_array, Arrays, no_arrays, array_then,
}
use transferred.Postgres.Aligned.{IsAligned, AllAligned}

-- What a builder holds after those rows. Arrays of other types, which no storable array is, are left whole.
abbrev pub window : {A : Type 0} → ℕ → ℕ → List A → List A
window from to xs = drop from (take to xs)

abbrev mutual
  pub between : ℕ → ℕ → Array → Array
  between from to (bools xs) = bools (window from to xs)
  between from to (int16s xs) = int16s (window from to xs)
  between from to (int32s xs) = int32s (window from to xs)
  between from to (int64s xs) = int64s (window from to xs)
  between from to (float32s xs) = float32s (window from to xs)
  between from to (float64s xs) = float64s (window from to xs)
  between from to (strings xs) = strings (window from to xs)
  between from to (binaries xs) = binaries (window from to xs)
  between from to (fixed_binaries xs) = fixed_binaries (window from to xs)
  between from to (date32s xs) = date32s (window from to xs)
  between from to (timestamps xs) = timestamps (window from to xs)
  between from to (intervals xs) = intervals (window from to xs)
  between from to (decimals xs) = decimals (window from to xs)
  between from to (structs valid children) =
      structs (window from to valid) (all_between from to children)
  between from to (other_array n) = other_array n

  pub all_between : ℕ → ℕ → Arrays → Arrays
  all_between from to no_arrays = no_arrays
  all_between from to (array_then a rest) =
      array_then (between from to a) (all_between from to rest)

pub take_all : {A : Type 0} (xs : List A) → take (length xs) xs ≡ xs
take_all [] = refl
take_all (x ∷ xs) = ap (λ r. x ∷ r) (take_all xs)

window_all : {A : Type 0} (xs : List A) {n : ℕ} → length xs ≡ n → window 0 n xs ≡ xs
window_all xs h = rw (← h) (take_all xs)

mutual
  pub between_all : (a : Array) (n : ℕ) → IsAligned n a → between 0 n a ≡ a
  between_all (bools xs) n h = ap bools (window_all xs h)
  between_all (int16s xs) n h = ap int16s (window_all xs h)
  between_all (int32s xs) n h = ap int32s (window_all xs h)
  between_all (int64s xs) n h = ap int64s (window_all xs h)
  between_all (float32s xs) n h = ap float32s (window_all xs h)
  between_all (float64s xs) n h = ap float64s (window_all xs h)
  between_all (strings xs) n h = ap strings (window_all xs h)
  between_all (binaries xs) n h = ap binaries (window_all xs h)
  between_all (fixed_binaries xs) n h = ap fixed_binaries (window_all xs h)
  between_all (date32s xs) n h = ap date32s (window_all xs h)
  between_all (timestamps xs) n h = ap timestamps (window_all xs h)
  between_all (intervals xs) n h = ap intervals (window_all xs h)
  between_all (decimals xs) n h = ap decimals (window_all xs h)
  between_all (structs valid children) n h =
      ap (λ v. structs v (all_between 0 n children)) (window_all valid h.0)
      ∙ ap (structs valid) (all_between_all children n h.1)
  between_all (other_array k) n h = refl

  all_between_all :
      (children : Arrays) (n : ℕ) → AllAligned n children → all_between 0 n children ≡ children
  all_between_all no_arrays n h = refl
  all_between_all (array_then a rest) n h =
      ap (λ first. array_then first (all_between 0 n rest)) (between_all a n h.0)
      ∙ ap (array_then a) (all_between_all rest n h.1)

window_none : {A : Type 0} (xs : List A) (k : ℕ) → window k k xs ≡ window 0 0 xs
window_none [] zero = refl
window_none [] (suc k) = refl
window_none (x ∷ xs) zero = refl
window_none (x ∷ xs) (suc k) = window_none xs k

mutual
  pub between_none : (a : Array) (k : ℕ) → between k k a ≡ between 0 0 a
  between_none (bools xs) k = ap bools (window_none xs k)
  between_none (int16s xs) k = ap int16s (window_none xs k)
  between_none (int32s xs) k = ap int32s (window_none xs k)
  between_none (int64s xs) k = ap int64s (window_none xs k)
  between_none (float32s xs) k = ap float32s (window_none xs k)
  between_none (float64s xs) k = ap float64s (window_none xs k)
  between_none (strings xs) k = ap strings (window_none xs k)
  between_none (binaries xs) k = ap binaries (window_none xs k)
  between_none (fixed_binaries xs) k = ap fixed_binaries (window_none xs k)
  between_none (date32s xs) k = ap date32s (window_none xs k)
  between_none (timestamps xs) k = ap timestamps (window_none xs k)
  between_none (intervals xs) k = ap intervals (window_none xs k)
  between_none (decimals xs) k = ap decimals (window_none xs k)
  between_none (structs valid children) k =
      ap (λ v. structs v (all_between k k children)) (window_none valid k)
      ∙ ap (structs (window 0 0 valid)) (all_between_none children k)
  between_none (other_array n) k = refl

  all_between_none :
      (children : Arrays) (k : ℕ) → all_between k k children ≡ all_between 0 0 children
  all_between_none no_arrays k = refl
  all_between_none (array_then a rest) k =
      ap (λ first. array_then first (all_between k k rest)) (between_none a k)
      ∙ ap (array_then (between 0 0 a)) (all_between_none rest k)

pub length-window :
    {A : Type 0} (xs : List A) (from to : ℕ)
    → from ≤ to
    → to ≤ length xs
    → length (window from to xs) ≡ to - from
length-window [] zero zero le h = refl
length-window [] from (suc to) le h = absurd (omega arith)
length-window [] (suc from) zero le h = absurd (omega arith)
length-window (x ∷ xs) zero zero le h = refl
length-window (x ∷ xs) (suc from) zero le h = absurd (omega arith)
length-window (x ∷ xs) zero (suc to) le h =
    let rest = length-window xs zero to (omega arith) (omega arith) in omega (arith, rest)
length-window (x ∷ xs) (suc from) (suc to) le h =
    let rest = length-window xs from to (omega arith) (omega arith) in omega (arith, rest)
