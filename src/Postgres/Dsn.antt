-- ===== src/Postgres/Dsn.antt =====
-- What `sslmode=verify-full` turns a connection into, for connection.rs.
use transferred.Prelude.{Bool-cases, inl, inr, ◌≡◌, refl, ap, Text, [], ◌∷◌, false, arith}
use transferred.Prelude.Bytes.{starts_with}
use transferred.Postgres.Connection.{
  verify_full, require, contains, replace_from, split_verify_full,
}

absent :
    (text pattern_text new : Text)
    → contains text pattern_text ≡ false
    → replace_from 0 text pattern_text new ≡ text
unfolding contains replace_from starts_with
absent [] pattern_text new h = refl
absent (c ∷ text) [] new h = absurd (cc h)
absent (c ∷ text) (p ∷ ps) new h = elim (Bool-cases (starts_with (c ∷ text) (p ∷ ps))) [
  | inl found ↦ absurd (ground arith)
  | inr other ↦
      rw (replace_from, other) (ap (λ rest. c ∷ rest) (absent text (p ∷ ps) new (ground arith)))
]

-- A DSN without sslmode=verify-full is left as it is, and is not to be verified.
pub split_verify_full-absent :
    (dsn : Text) → contains dsn verify_full ≡ false → split_verify_full dsn ≡ (dsn, false)
unfolding split_verify_full
split_verify_full-absent dsn h =
    rw h (ap (λ text. (text, false)) (absent dsn verify_full require h))
