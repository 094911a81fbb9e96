-- ===== src/Postgres/StagingName.antt =====
-- The staging table's name, for destination.rs.
use transferred.Prelude.{
  ℕ, ◌≤◌, ◌≡◌, ◌≢◌, sym, ◌∙◌, Text, codes, List, [], ◌∷◌, ◌++◌, ok, length, length-append, ltb→lt,
  some, Result-cases, inl, inr, arith,
}
use transferred.Postgres.Destination.{staging_suffix, staging_name, qualify, Loader, loader_of}

append-ne_self : (name : Text) (c : ℕ) (rest : Text) → name ++ c ∷ rest ≢ name
append-ne_self [] c rest e = cc
append-ne_self (x ∷ name) c rest e = append-ne_self name c rest (cons-injective e)
  where
    cons-injective : {s t : Text} → x ∷ s ≡ x ∷ t → s ≡ t
    cons-injective e = cc

-- A staging name that is accepted is the table's name with the suffix, within Postgres's limit of
-- 63 bytes, and another name than the table's.
pub staging_name_fits :
    (name staging : Text)
    → staging_name name ≡ ok staging
    → (staging ≡ name ++ staging_suffix) × (length staging ≤ 63) × (staging ≢ name)
unfolding staging_name
staging_name_fits name staging h = (
  same,
  omega (arith, ltb→lt 63 (length staging), short, length-append name staging_suffix),
  λ e. append-ne_self name _ _ (sym same ∙ e),
)
  where
    same : staging ≡ name ++ staging_suffix
    same = ground arith

    short : length staging ≤ 63
    short = ground arith

append_cancel : (a b c : Text) → a ++ b ≡ a ++ c → b ≡ c
append_cancel [] b c e = e
append_cancel (x ∷ a) b c e = append_cancel a b c (rest_eq e)
  where
    rest_eq : {s t : Text} → x ∷ s ≡ x ∷ t → s ≡ t
    rest_eq e = cc

-- Two tables of one schema have one reference only if they have one quoted name.
qualify-cancel :
    (escape : Text → Text) (schema : List Text) (a b : Text)
    → qualify escape schema a ≡ qualify escape schema b
    → escape a ≡ escape b
unfolding qualify
qualify-cancel escape [] a b e = e
qualify-cancel escape (x ∷ []) a b e =
    append_cancel (codes ".") _ _ (append_cancel (escape x) _ _ e)
qualify-cancel escape (x ∷ y ∷ schema) a b e =
    qualify-cancel escape (y ∷ schema) a b
      (append_cancel (codes ".") _ _ (append_cancel (escape x) _ _ e))

-- With a quoting that tells names apart, the staging table of a loader that was built is never the
-- table that is replaced.
pub staging-ne-target :
    (escape : Text → Text)
    → ((a b : Text) → escape a ≡ escape b → a ≡ b)
    → (schema : List Text) (name : Text) (self : Loader)
    → loader_of escape (some (name, schema)) ≡ ok self
    → self.staging ≢ self.target
unfolding loader_of
staging-ne-target escape injective schema name self h = elim (Result-cases (staging_name name)) [
  | inl (staging, e) ↦
      let named : self.staging ≡ qualify escape schema staging = ground (arith, e) in
      let targeted : self.target ≡ qualify escape schema name = ground (arith, e) in
      λ same. (staging_name_fits name staging e).2 (
        injective staging name
          (qualify-cancel escape schema staging name (sym named ∙ same ∙ targeted)))
  | inr (x, e) ↦ absurd (cc (e, h))
]
