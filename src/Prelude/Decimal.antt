-- ===== src/Prelude/Decimal.antt =====
-- `Display` of an integer and `str::parse::<i32>`, as `std` has them.
use Prim.Native.Nat.{ℕ, zero, suc, ◌+◌, ◌-◌, ◌*◌, ◌/◌, ◌%◌, ◌<◌, ◌≤◌}
use mathlib.Core.Path.{◌≡◌, ap, ◌∙◌}
use mathlib.Core.Logic.{◌⊎◌, inl, inr}
use mathlib.Core.Bool.{◌&&◌}
use mathlib.Core.List.{[], ◌∷◌}
use mathlib.Core.Option.{Option, none, some}
use native.Mathlib.Omega.{arith}
use transferred.Prelude.Tests.{ltb, leb, ◌==◌, if◌then◌else◌, Text}
use transferred.Prelude.Int.{ℤ, pos, negsuc, IsSigned, is_signed}

-- The digits of `n`, in front of `tail`; `n < 10 ^ fuel`.
pub digits_before : ℕ → ℕ → Text → Text
digits_before zero n tail = tail
digits_before (suc fuel) n tail =
    let here = (48 + n % 10) ∷ tail in
    let more = digits_before fuel (n / 10) here in if ltb n 10 then here else more

-- A number is below ten to the power of itself.
unfoldable pub display_nat : ℕ → Text
unfolding digits_before
display_nat n = digits_before (suc n) n []

unfoldable pub display_int : ℤ → Text
unfolding display_nat
display_int (pos n) = display_nat n
display_int (negsuc n) = 45 ∷ display_nat (n + 1)

-- The value of a text of digits, after those read so far.
pub read_digits : ℕ → Text → Option ℕ
read_digits acc [] = some acc
read_digits acc (c ∷ text) =
    let rest = read_digits (acc * 10 + (c - 48)) text in if leb 48 c && leb c 57 then rest else none

read_unsigned : Text → Option ℕ
unfolding read_digits
read_unsigned [] = none
read_unsigned (c ∷ text) = read_digits 0 (c ∷ text)

-- The negation of a natural number.
pub negated : ℕ → ℤ
negated zero = pos 0
negated (suc n) = negsuc n

in_i32 : Option ℤ → Option ℤ
in_i32 none = none
in_i32 (some z) = if is_signed 2147483648 z then some z else none

signed_value : (ℕ → ℤ) → Option ℕ → Option ℤ
signed_value sign none = none
signed_value sign (some n) = some (sign n)

-- One sign, then at least one digit, and a value that an `i32` holds.
unfoldable pub parse_i32 : Text → Option ℤ
unfolding read_unsigned negated in_i32 signed_value
parse_i32 [] = none
parse_i32 (c ∷ text) =
    if c == 45
    then in_i32 (signed_value negated (read_unsigned text))
    else if c == 43
    then in_i32 (signed_value pos (read_unsigned text))
    else in_i32 (signed_value pos (read_unsigned (c ∷ text)))

-- What the accumulator is worth in front of `n`, by the digits of `n`.
shifted : ℕ → ℕ → ℕ → ℕ
shifted zero acc n = acc
shifted (suc fuel) acc n =
    let more = shifted fuel acc (n / 10) * 10 + n % 10 in if ltb n 10 then acc * 10 + n else more

read_digits-digits_before :
    (fuel n acc : ℕ) (tail : Text)
    → n < fuel
    → read_digits acc (digits_before fuel n tail) ≡ read_digits (shifted fuel acc n) tail
unfolding digits_before read_digits shifted
read_digits-digits_before zero n acc tail h = elim h [ ]
read_digits-digits_before (suc fuel) n acc tail h =
    ground (arith, read_digits-digits_before fuel (n / 10) acc ((48 + n % 10) ∷ tail))

shifted_zero : (fuel n : ℕ) → n < fuel → shifted fuel 0 n ≡ n
unfolding shifted
shifted_zero zero n h = elim h [ ]
shifted_zero (suc fuel) n h = ground (arith, shifted_zero fuel (n / 10))

digits_nonempty :
    (fuel n : ℕ) (tail : Text)
    → n < fuel
    → (c : ℕ) × (text : Text) × (digits_before fuel n tail ≡ c ∷ text) × (48 ≤ c) × (c ≤ 57)
unfolding digits_before
digits_nonempty zero n tail h = elim h [ ]
digits_nonempty (suc fuel) n tail h = elim (small n) [
  | inl p ↦ (48 + n % 10, tail, ground arith, omega arith, omega arith)
  | inr p ↦
      let rest = digits_nonempty fuel (n / 10) ((48 + n % 10) ∷ tail) (omega arith) in
      (rest.0, rest.1, ground arith, rest.3, rest.4)
]
  where
    small : (m : ℕ) → (m < 10) ⊎ (10 ≤ m)
    small m = omega arith

read-display_nat : (n : ℕ) → read_digits 0 (display_nat n) ≡ some n
unfolding display_nat
read-display_nat n =
    read_digits-digits_before (suc n) n 0 [] (omega arith)
    ∙ unfold read_digits in ap some (shifted_zero (suc n) n (omega arith))

-- What `display_nat` prints: at least one character, the first a digit.
display_nat_head :
    (n : ℕ) → (c : ℕ) × (text : Text) × (display_nat n ≡ c ∷ text) × (48 ≤ c) × (c ≤ 57)
unfolding display_nat
display_nat_head n = digits_nonempty (suc n) n [] (omega arith)

read_unsigned-display_nat : (n : ℕ) → read_unsigned (display_nat n) ≡ some n
unfolding read_unsigned
read_unsigned-display_nat n = let d = display_nat_head n in ground (arith, d.2, read-display_nat n)

parse_unsigned :
    (s : Text) (c : ℕ) (text : Text)
    → s ≡ c ∷ text
    → 48 ≤ c
    → parse_i32 s ≡ in_i32 (signed_value pos (read_unsigned s))
unfolding parse_i32
parse_unsigned s c text e h = rw e (ground arith)

-- Printing an `i32` and reading it back gives the same number.
pub parse_i32-display_int : (z : ℤ) → IsSigned 2147483648 z → parse_i32 (display_int z) ≡ some z
parse_i32-display_int (pos n) h =
    let d = display_nat_head n in
    unfold display_int in
    parse_unsigned (display_nat n) d.0 d.1 d.2 d.3
    ∙ rw (read_unsigned-display_nat n) (unfold in_i32 signed_value in ground arith)
parse_i32-display_int (negsuc n) h =
    unfold display_int parse_i32 in
    rw (read_unsigned-display_nat (n + 1)) (unfold in_i32 signed_value negated in ground arith)
