-- ===== src/Prelude/Results.antt =====
-- `std::result::Result`, its `?` as `>>=`, and the combinators of it and of `Option` that the code calls.
use mathlib.Core.Path.{◌≡◌, refl}
use mathlib.Core.Logic.{◌⊎◌, inl, inr}
use mathlib.Core.Bool.{Bool, true, false}
use mathlib.Core.Option.{Option, none, some}
use mathlib.Core.List.{List, [], ◌∷◌}

pub data Result {ℓ κ} (A : Type ℓ) (E : Type κ) : Type (ℓ ⊔ κ) where
  ok : A → Result A E
  err : E → Result A E

infixl 5 ◌>>=◌ ◌>>◌
abbrev pub ◌>>=◌ {ℓ κ ε} :
    {A : Type ℓ} {B : Type κ} {E : Type ε} → Result A E → (A → Result B E) → Result B E
ok a >>= f = f a
err e >>= f = err e

abbrev pub ◌>>◌ {κ ε} : {B : Type κ} {E : Type ε} → Result (Unit {0}) E → Result B E → Result B E
m >> k = m >>= λ _. k

abbrev pub map_err {ℓ κ ε} :
    {A : Type ℓ} {E : Type κ} {F : Type ε} → (E → F) → Result A E → Result A F
map_err f (ok a) = ok a
map_err f (err e) = err (f e)

abbrev pub map_ok {ℓ κ ε} :
    {A : Type ℓ} {B : Type κ} {E : Type ε} → (A → B) → Result A E → Result B E
map_ok f (ok a) = ok (f a)
map_ok f (err e) = err e

abbrev pub ok_or {ℓ κ} : {A : Type ℓ} {E : Type κ} → E → Option A → Result A E
ok_or e none = err e
ok_or e (some a) = ok a

-- `Option<A>` through a fallible function: `map(f).transpose()`.
abbrev pub traverse {ℓ κ ε} :
    {A : Type ℓ} {B : Type κ} {E : Type ε} → (A → Result B E) → Option A → Result (Option B) E
traverse f none = ok none
traverse f (some a) = f a >>= λ b. ok (some b)

-- `iter().map(f).collect::<Result<Vec<_>>>()`: stops at the first error.
abbrev pub collect {ℓ κ ε} :
    {A : Type ℓ} {B : Type κ} {E : Type ε} → (A → Result B E) → List A → Result (List B) E
collect f [] = ok []
collect f (x ∷ xs) = f x >>= λ y. collect f xs >>= λ ys. ok (y ∷ ys)

abbrev pub is_err {ℓ κ} : {A : Type ℓ} {E : Type κ} → Result A E → Bool
is_err (ok a) = false
is_err (err e) = true

-- A chain that succeeds went through a first value.
pub >>=-eq-ok {ℓ κ ε} :
    {A : Type ℓ} {B : Type κ} {E : Type ε} (r : Result A E) (next : A → Result B E) {y : B}
    → (r >>= next) ≡ ok y
    → (x : A) × (r ≡ ok x) × (next x ≡ ok y)
>>=-eq-ok (err e) next succeeds = cc
>>=-eq-ok (ok x) next succeeds = (x, refl, succeeds)

pub Result-cases {ℓ κ} :
    {A : Type ℓ} {E : Type κ} (r : Result A E) → ((a : A) × (r ≡ ok a)) ⊎ ((e : E) × (r ≡ err e))
Result-cases (ok a) = inl (a, refl)
Result-cases (err e) = inr (e, refl)
