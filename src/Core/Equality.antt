-- ===== src/Core/Equality.antt =====
-- Equality of Arrow types and fields is decidable: the `==` that the code uses on them.
use native.Mathlib.Decide.{ℕ_discrete}
use text.Mathlib.Text.{◌==◌}
use text.Mathlib.TextEquality.{eq_iff}
use transferred.Prelude.{String, List, inl, inr, Bool-cases}
use transferred.Prelude.Int.{ℤ}
use transferred.Core.Arrow.{ArrowType, Fields, ArrowField}

unfoldable pub String-discrete : Discrete String
String-discrete s t = elim (Bool-cases (s == t)) [
  | inl e ↦ yes ((eq_iff s t).0 e)
  | inr e ↦ no (λ p. cc (e, (eq_iff s t).1 p))
]

unfoldable pub ℤ-discrete : Discrete ℤ
unfolding ℕ_discrete
ℤ-discrete = hlevel ℕ_discrete

unfoldable pub ArrowType-discrete : Discrete ArrowType
unfolding ℕ_discrete
ArrowType-discrete = hlevel (ℕ_discrete, ℤ-discrete, String-discrete)

unfoldable pub Fields-discrete : Discrete Fields
unfolding ℕ_discrete
Fields-discrete = hlevel (ℕ_discrete, ℤ-discrete, String-discrete)

unfoldable pub fields_discrete : Discrete (List ArrowField)
unfolding ℕ_discrete
fields_discrete = hlevel (ℕ_discrete, ℤ-discrete, String-discrete)
