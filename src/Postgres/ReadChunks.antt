-- ===== src/Postgres/ReadChunks.antt =====
-- The chunks that a COPY is decoded in, for source.rs.
use mathlib.Core.List.{flatten}
use transferred.Prelude.{
  ℕ, ◌+◌, ◌≤◌, ◌<◌, ◌≡◌, refl, ap, err, List, [], ◌∷◌, ◌++◌, append_assoc, map, ok, false,
  Bool-cases, inl, inr, length, length-append, leb, All, arith,
}
use transferred.Core.Error.{Outcome, TransferredError}
use transferred.Postgres.Source.{try_chunks}

module _ {A : Type 0} (size : ℕ) where
  abbrev pub IsChunk : List A → Type 0
  IsChunk chunk = (0 < length chunk) × (length chunk ≤ size)

  abbrev pub IsChunked : List A → List (Outcome (List A)) → Type 0
  IsChunked xs found =
      (chunks : List (List A)) × (found ≡ map ok chunks)
      × (flatten chunks ≡ xs)
      × All IsChunk chunks

  gathered-IsChunked :
      (gathered xs : List A)
      → length gathered < size
      → IsChunked (gathered ++ xs) (try_chunks size gathered (map ok xs))
  unfolding try_chunks flatten
  gathered-IsChunked [] [] h = ([], refl, refl, tt)
  gathered-IsChunked (x ∷ gathered) [] h =
      ((x ∷ gathered) ∷ [], refl, refl, ((omega arith, omega arith), tt))
  gathered-IsChunked gathered (x ∷ xs) h = elim (Bool-cases (leb size (length gathered + 1))) [
    | inl full ↦
        rw (try_chunks, full)
          (chunk_then (gathered ++ x ∷ []) xs gathered x refl h
            (gathered-IsChunked [] xs (omega arith)))
    | inr more ↦
        rw (try_chunks, more) (grown (gathered-IsChunked (gathered ++ x ∷ []) xs (longer more)))
  ]
    where
      chunk_then :
          (chunk xs gathered : List A) (x : A) {found : List (Outcome (List A))}
          → chunk ≡ gathered ++ x ∷ []
          → length gathered < size
          → IsChunked xs found
          → IsChunked (gathered ++ x ∷ xs) (ok chunk ∷ found)
      chunk_then chunk xs gathered x e h (chunks, same, all, good) = (
        chunk ∷ chunks,
        ap (λ rest. ok chunk ∷ rest) same,
        rw (e, all) (append_assoc gathered (x ∷ []) xs),
        (
          (
            rw (e, length-append gathered (x ∷ [])) (omega arith),
            rw (e, length-append gathered (x ∷ [])) (omega arith),
          ),
          good,
        ),
      )

      grown :
          {found : List (Outcome (List A))}
          → IsChunked ((gathered ++ x ∷ []) ++ xs) found
          → IsChunked (gathered ++ x ∷ xs) found
      grown = rw (append_assoc gathered (x ∷ []) xs) (λ found. found)

      longer : leb size (length gathered + 1) ≡ false → length (gathered ++ x ∷ []) < size
      longer more = rw (length-append gathered (x ∷ [])) (ground arith)

  pub try_chunks-IsChunked :
      (xs : List A) → 0 < size → IsChunked xs (try_chunks size [] (map ok xs))
  try_chunks-IsChunked xs h = gathered-IsChunked [] xs h

  -- Full chunks of the rows in front of an error, the rows that are left over, and the error.
  abbrev pub IsCutOff :
      List A → TransferredError → List (Outcome (List A)) → List (Outcome (List A)) → Type 0
  IsCutOff xs e behind found =
      (chunks : List (List A)) × (left : List A) × (found ≡ map ok chunks ++ err e ∷ behind)
      × (flatten chunks ++ left ≡ xs)
      × (length left < size)
      × All (λ chunk. length chunk ≡ size) chunks
