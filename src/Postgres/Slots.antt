-- ===== src/Postgres/Slots.antt =====
-- The rows of a column and the cells that they are written as, for destination/arrow_to_pg.rs and
-- source/pg_to_arrow.rs.
use transferred.Prelude.{
  ℕ, zero, suc, ◌+◌, ◌<◌, ◌≡◌, refl, ap, List, [], ◌∷◌, ◌++◌, Option, some, none, Result, ok, err,
  ◌>>=◌, arith, length, if◌then◌else◌,
}
use transferred.Prelude.Bytes.{Bytes}
use transferred.Core.Error.{Outcome}
use transferred.Postgres.Protocol.{Cell, IsNull, null, not_null}
use transferred.Postgres.Casts.{value, null_at}
use transferred.Postgres.RowRoundTrip.{written_of, IsShort}
use transferred.Prelude.{◌≤◌, Bool, true, false, get_elem?}
use transferred.Postgres.Values.{slot, OnSome, AllSome}
use transferred.Postgres.Windows.{window}

pub window_suc :
    {A : Type 0} (xs : List A) (from row : ℕ) {v : A}
    → from ≤ row
    → get_elem? xs row ≡ some v
    → window from (row + 1) xs ≡ window from row xs ++ v ∷ []
window_suc [] from row le h = absurd (cc h)
window_suc (x ∷ xs) zero zero le h = cc
window_suc (x ∷ xs) (suc from) zero le h = absurd (omega arith)
window_suc (x ∷ xs) zero (suc row) le h =
    let more : suc row + 1 ≡ suc (row + 1) = omega arith in
    rw more (ap (λ r. x ∷ r) (window_suc xs zero row (omega arith) h))
window_suc (x ∷ xs) (suc from) (suc row) le h =
    let more : suc row + 1 ≡ suc (row + 1) = omega arith in
    rw more (window_suc xs from row (omega arith) h)

pub get_elem?-slot :
    {A : Type 0} (xs : List (Option A)) (row : ℕ)
    → row < length xs
    → get_elem? xs row ≡ some (slot xs row)
get_elem?-slot [] row h = absurd (omega arith)
get_elem?-slot (x ∷ xs) zero h = refl
get_elem?-slot (x ∷ xs) (suc row) h = get_elem?-slot xs row (omega arith)

-- A cell of fewer bytes, unless it is a null.
abbrev pub IsBelow : ℕ → Cell → Type 0
IsBelow n none = Unit
IsBelow n (some bytes) = length bytes < n

abbrev pub is_none : Cell → Bool
is_none none = true
is_none (some bytes) = false

pub IsBelow-IsShort : (n : ℕ) (cell : Cell) → n ≤ 2147483648 → IsBelow n cell → IsShort cell
IsBelow-IsShort n none le h = tt
IsBelow-IsShort n (some bytes) le h = omega arith

pub all_unit : {A : Type 0} (xs : List (Option A)) → AllSome (λ v. Unit {0}) xs
all_unit [] = tt
all_unit (none ∷ xs) = (tt, all_unit xs)
all_unit (some v ∷ xs) = (tt, all_unit xs)

pub bind_assoc :
    {A B C E : Type 0} (m : Result A E) (f : A → Result B E) (g : B → Result C E)
    → (m >>= λ a. f a >>= g) ≡ (m >>= f >>= g)
bind_assoc (ok a) f g = refl
bind_assoc (err e) f g = refl

pub slot-OnSome :
    {A : Type 0} (Q R : A → Type 0) (xs : List (Option A)) (row : ℕ)
    → ((v : A) → Q v → R v)
    → AllSome Q xs
    → OnSome R (slot xs row)
slot-OnSome Q R [] row f h = tt
slot-OnSome Q R (none ∷ xs) zero f h = tt
slot-OnSome Q R (some v ∷ xs) zero f h = f v h.0
slot-OnSome Q R (x ∷ xs) (suc row) f h = slot-OnSome Q R xs row f h.1

-- A writer of values and a reader of cells, at a value that goes out in so few bytes and comes back.
abbrev pub Returns :
    {A : Type 0} → ℕ → (A → Outcome (IsNull × Bytes)) → (Cell → Outcome (Option A)) → A → Type 0
Returns n write_value read_cell v =
    (bytes : Bytes) × (length bytes < n)
    × (write_value v ≡ ok (not_null, bytes))
    × (read_cell (some bytes) ≡ ok (some v))

module _ {A : Type 0} (n : ℕ) (write_value : A → Outcome (IsNull × Bytes))
    (read_cell : Cell → Outcome (Option A)) (default : A) where
  pub cell_of_slot :
      read_cell none ≡ ok none
      → (xs : List (Option A)) (row : ℕ) → row < length xs
      → OnSome (Returns n write_value read_cell) (slot xs row)
      → (cell : Cell) × IsBelow n cell
        × (null_at xs row ≡ is_none cell)
        × ((if null_at xs row then ok (null, []) else write_value (value default xs row))
            ≡ ok (written_of cell))
        × (read_cell cell ≡ ok (slot xs row))
  unfolding null_at value
  cell_of_slot nulls [] row lt h = absurd (omega arith)
  cell_of_slot nulls (none ∷ xs) zero lt h = (none, tt, refl, refl, nulls)
  cell_of_slot nulls (some v ∷ xs) zero lt h = (some h.0, h.1, refl, h.2, h.3)
  cell_of_slot nulls (none ∷ xs) (suc row) lt h = cell_of_slot nulls xs row (omega arith) h
  cell_of_slot nulls (some v ∷ xs) (suc row) lt h = cell_of_slot nulls xs row (omega arith) h
