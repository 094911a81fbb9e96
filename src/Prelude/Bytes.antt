-- ===== src/Prelude/Bytes.antt =====
-- Two's complement and big-endian bytes: `put_i16`, `put_i32`, `try_get_i16`, `try_get_i32` of the
-- `bytes` interface, and the wrapping casts of `std`.
use mathlib.Core.Path.{◌≡◌, refl}
use mathlib.Core.Bool.{Bool, true, false, ◌&&◌}
use mathlib.Core.List.{List, [], ◌∷◌, ◌++◌}
use mathlib.Core.Option.{Option, none, some}
use Prim.Native.Nat.{ℕ, ◌+◌, ◌-◌, ◌*◌, ◌/◌, ◌%◌, ◌<◌}
use native.Mathlib.Omega.{arith}
use transferred.Prelude.Tests.{ltb, ◌==◌, if◌then◌else◌}
use transferred.Prelude.Lists.{All}
use transferred.Prelude.Int.{ℤ, pos, negsuc, IsSigned}

abbrev pub Bytes : Type 0
Bytes = List ℕ

abbrev pub IsByte : ℕ → Type 0
IsByte b = b < 256

-- The bit pattern of an `i16`, an `i32`, and back.
abbrev pub to_u16 : ℤ → ℕ
to_u16 (pos n) = n % 65536
to_u16 (negsuc n) = 65535 - n % 65536

abbrev pub to_u32 : ℤ → ℕ
to_u32 (pos n) = n % 4294967296
to_u32 (negsuc n) = 4294967295 - n % 4294967296

abbrev pub of_u16 : ℕ → ℤ
of_u16 u = if ltb u 32768 then pos u else negsuc (65535 - u)

abbrev pub of_u32 : ℕ → ℤ
of_u32 u = if ltb u 2147483648 then pos u else negsuc (4294967295 - u)

pub of_u32-to_u32 : (z : ℤ) → IsSigned 2147483648 z → of_u32 (to_u32 z) ≡ z
of_u32-to_u32 (pos n) h = ground arith
of_u32-to_u32 (negsuc n) h = ground arith

unfoldable pub be_i16 : ℤ → Bytes
be_i16 z = let u = to_u16 z in (u / 256) ∷ (u % 256) ∷ []

unfoldable pub be_i32 : ℤ → Bytes
be_i32 z = let u = to_u32 z in (u / 16777216) ∷ (u / 65536 % 256) ∷ (u / 256 % 256) ∷ (u % 256) ∷ []

-- `none` where the slice is too short.
unfoldable pub try_get_i16 : Bytes → Option (ℤ × Bytes)
try_get_i16 [] = none
try_get_i16 (a ∷ []) = none
try_get_i16 (a ∷ b ∷ rest) = some (of_u16 (a * 256 + b), rest)

unfoldable pub try_get_i32 : Bytes → Option (ℤ × Bytes)
try_get_i32 (a ∷ b ∷ c ∷ d ∷ rest) = some (of_u32 (a * 16777216 + b * 65536 + c * 256 + d), rest)
try_get_i32 _ = none

pub try_get_i16-be_i16 :
    (z : ℤ) (rest : Bytes) → IsSigned 32768 z → try_get_i16 (be_i16 z ++ rest) ≡ some (z, rest)
unfolding try_get_i16 be_i16
try_get_i16-be_i16 (pos n) rest h = ground arith
try_get_i16-be_i16 (negsuc n) rest h = ground arith

regroup :
    (u : ℕ) → u / 16777216 * 16777216 + u / 65536 % 256 * 65536 + u / 256 % 256 * 256 + u % 256 ≡ u
regroup u = omega arith

pub try_get_i32-be_i32 :
    (z : ℤ) (rest : Bytes) → IsSigned 2147483648 z → try_get_i32 (be_i32 z ++ rest) ≡ some (z, rest)
unfolding try_get_i32 be_i32
try_get_i32-be_i32 z rest h = rw (regroup (to_u32 z), of_u32-to_u32 z h)

pub be_i16-IsByte : (z : ℤ) → All IsByte (be_i16 z)
unfolding be_i16
be_i16-IsByte (pos n) = omega arith
be_i16-IsByte (negsuc n) = omega arith

pub be_i32-IsByte : (z : ℤ) → All IsByte (be_i32 z)
unfolding be_i32
be_i32-IsByte (pos n) = omega arith
be_i32-IsByte (negsuc n) = omega arith

-- `slice.starts_with(prefix)`
unfoldable pub starts_with : Bytes → Bytes → Bool
starts_with text [] = true
starts_with [] (p ∷ ps) = false
starts_with (b ∷ text) (p ∷ ps) = let rest = starts_with text ps in b == p && rest

-- `str.strip_prefix(prefix)`
unfoldable pub strip_prefix : Bytes → Bytes → Option Bytes
strip_prefix text [] = some text
strip_prefix [] (p ∷ ps) = none
strip_prefix (b ∷ text) (p ∷ ps) = let rest = strip_prefix text ps in if b == p then rest else none

pub starts_with-append : (p t : Bytes) → starts_with (p ++ t) p ≡ true
unfolding starts_with
starts_with-append [] t = refl
starts_with-append (b ∷ p) t = ground (arith, starts_with-append p t)

pub strip_prefix-append : (p t : Bytes) → strip_prefix (p ++ t) p ≡ some t
unfolding strip_prefix
strip_prefix-append [] t = refl
strip_prefix-append (b ∷ p) t = ground (arith, strip_prefix-append p t)
