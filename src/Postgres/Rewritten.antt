-- ===== src/Postgres/Rewritten.antt =====
-- The DSN as it is handed on, for split_verify_full in crates/transferred-postgres/src/connection.rs.
use transferred.Prelude.{
  ◌⊎◌, ℕ, zero, suc, ◌≡◌, refl, Text, [], ◌∷◌, ◌++◌, true, false, arith, Bool-cases, inl, inr,
}
use transferred.Prelude.Bytes.{starts_with}
use transferred.Postgres.Dsn.{split_verify_full-absent}
use transferred.Postgres.Connection.{
  verify_full, require, contains, replace_from, split_verify_full,
}

-- No text that begins with the replacement begins with the pattern, or with any end of it.
abbrev Clashless : Text → Type 0
Clashless [] = Unit
Clashless (p ∷ ps) = ((rest : Text) → starts_with (require ++ rest) (p ∷ ps) ≡ false) × Clashless ps

verify_full-Clashless : Clashless verify_full
unfolding starts_with
verify_full-Clashless = (
  λ rest. refl,
  (
    λ rest. refl,
    (
      λ rest. refl,
      (
        λ rest. refl,
        (
          λ rest. refl,
          (
            λ rest. refl,
            (
              λ rest. refl,
              (
                λ rest. refl,
                (
                  λ rest. refl,
                  (
                    λ rest. refl,
                    (
                      λ rest. refl,
                      (
                        λ rest. refl,
                        (
                          λ rest. refl,
                          (
                            λ rest. refl,
                            (
                              λ rest. refl,
                              (λ rest. refl, (λ rest. refl, (λ rest. refl, (λ rest. refl, tt)))),
                            ),
                          ),
                        ),
                      ),
                    ),
                  ),
                ),
              ),
            ),
          ),
        ),
      ),
    ),
  ),
)

starts_with-cons :
    (c p : ℕ) (text other ps : Text)
    → (starts_with text ps ≡ true → starts_with other ps ≡ true)
    → starts_with (c ∷ text) (p ∷ ps) ≡ true
    → starts_with (c ∷ other) (p ∷ ps) ≡ true
unfolding starts_with
starts_with-cons c p text other ps carried h = ground arith

-- What the rewritten text begins with, the text began with.
starts_with-replace_from :
    (dsn ps : Text)
    → Clashless ps
    → starts_with (replace_from 0 dsn verify_full require) ps ≡ true
    → starts_with dsn ps ≡ true
unfolding starts_with replace_from
starts_with-replace_from dsn [] clashless h = refl
starts_with-replace_from [] (p ∷ ps) clashless h = h
starts_with-replace_from (c ∷ dsn) (p ∷ ps) (clash, clashless) h =
    elim (Bool-cases (starts_with (c ∷ dsn) verify_full)) [
      | inl found ↦
          let front : starts_with (require ++ replace_from 18 dsn verify_full require) (p ∷ ps)
              ≡ true =
            rw (replace_from, found) at h in
          absurd (cc (front, clash (replace_from 18 dsn verify_full require)))
      | inr other ↦
          let front : starts_with (c ∷ replace_from 0 dsn verify_full require) (p ∷ ps) ≡ true =
            rw (replace_from, other) at h in
          starts_with-cons c p _ dsn ps (starts_with-replace_from dsn ps clashless) front
    ]

copied :
    (c : ℕ) (dsn : Text)
    → starts_with (c ∷ dsn) verify_full ≡ false
    → starts_with (c ∷ replace_from 0 dsn verify_full require) verify_full ≡ false
copied c dsn other =
    elim (Bool-cases (starts_with (c ∷ replace_from 0 dsn verify_full require) verify_full)) [
      | inl found ↦
          let there =
            starts_with-cons c _ _ dsn _ (starts_with-replace_from dsn _ verify_full-Clashless.1)
              found in
          absurd (cc (there, other))
      | inr missing ↦ missing
    ]

contains-cons :
    (c : ℕ) (text : Text)
    → starts_with (c ∷ text) verify_full ≡ false
    → contains text verify_full ≡ false
    → contains (c ∷ text) verify_full ≡ false
unfolding contains
contains-cons c text first rest = rw (first, rest) refl

contains-replace_from :
    (skip : ℕ) (dsn : Text)
    → contains (replace_from skip dsn verify_full require) verify_full ≡ false
unfolding contains replace_from starts_with
contains-replace_from skip [] = refl
contains-replace_from (suc skip) (c ∷ dsn) = contains-replace_from skip dsn
contains-replace_from zero (c ∷ dsn) = elim (Bool-cases (starts_with (c ∷ dsn) verify_full)) [
  | inl found ↦ rw (replace_from, found) (contains-replace_from 18 dsn)
  | inr other ↦
      rw (replace_from, other)
        (contains-cons c (replace_from 0 dsn verify_full require) (copied c dsn other)
          (contains-replace_from 0 dsn))
]

-- A DSN without sslmode=verify-full is left as it is, and is not to be verified; any other is to be
-- verified, and what is handed on to the driver never contains sslmode=verify-full, however it
-- overlaps or repeats in what was given.
pub split_verify_full_either :
    (dsn : Text)
    → ((contains dsn verify_full ≡ false) × (split_verify_full dsn ≡ (dsn, false)))
      ⊎ ((contains dsn verify_full ≡ true)
          × ((split_verify_full dsn).1 ≡ true)
          × (contains (split_verify_full dsn).0 verify_full ≡ false))
unfolding split_verify_full
split_verify_full_either dsn = elim (Bool-cases (contains dsn verify_full)) [
  | inl found ↦ inr (found, found, contains-replace_from 0 dsn)
  | inr missing ↦ inl (missing, split_verify_full-absent dsn missing)
]
