-- ===== src/Postgres/SentRows.antt =====
-- The messages of a batch's rows, written one by one and sent in one piece, for destination/copy_in.rs.
use mathlib.Core.Path.{ap₂}
use mathlib.Core.List.{flatten}
use transferred.Prelude.{
  ℕ, zero, suc, ◌+◌, ◌≡◌, refl, ap, sym, ◌∙◌, List, [], ◌∷◌, ◌++◌, append_assoc, Result, ok, err,
  map_ok, ◌>>=◌, >>=-eq-ok, arith,
}
use transferred.Prelude.Bytes.{Bytes}
use transferred.Core.Error.{Outcome}
use transferred.Core.Arrow.{RecordBatch}
use transferred.Postgres.Protocol.{Protocol}
use transferred.Postgres.Encoder.{Encoder, write_row}
use transferred.Postgres.Chunks.{rows_bytes}
use transferred.Postgres.Lanes.{written_rows}

ok_injective : {A E : Type 0} {a b : A} → ◌≡◌ {A = Result A E} (ok a) (ok b) → a ≡ b
ok_injective h = cc

pub flatten-append-bytes : (xs ys : List Bytes) → flatten (xs ++ ys) ≡ flatten xs ++ flatten ys
unfolding flatten
flatten-append-bytes [] ys = refl
flatten-append-bytes (x ∷ xs) ys =
    ap (λ r. x ++ r) (flatten-append-bytes xs ys) ∙ sym (append_assoc x (flatten xs) (flatten ys))

module _ (P : Protocol) (encoder : Encoder) (batch : RecordBatch) where
  pub written_rows-part :
      (a b row : ℕ) {messages : List Bytes}
      → written_rows P encoder batch (a + b) row ≡ ok messages
      → (front : List Bytes) × (rest : List Bytes) × (messages ≡ front ++ rest)
        × (written_rows P encoder batch a row ≡ ok front)
        × (written_rows P encoder batch b (row + a) ≡ ok rest)
  written_rows-part zero b row {messages} h =
      ([], messages, refl, refl, ap₂ (written_rows P encoder batch) (omega arith) (omega arith) ∙ h)
  written_rows-part (suc a) b row {messages} h =
      let more : suc a + b ≡ suc (a + b) = omega arith in
      let h' : written_rows P encoder batch (suc (a + b)) row ≡ ok messages = rw more at h in
      let (head, wrote, behind) = >>=-eq-ok (write_row P encoder batch row []) _ h' in
      let (tail, wrote_tail, both) =
        >>=-eq-ok (written_rows P encoder batch (a + b) (row + 1)) _ behind in
      let (front, rest, same, first, others) = written_rows-part a b (row + 1) wrote_tail in
      (
        head ∷ front,
        rest,
        sym (ok_injective both) ∙ ap (λ ms. head ∷ ms) same,
        rw (wrote, first) refl,
        ap (written_rows P encoder batch b) (omega arith) ∙ others,
      )

  joined-flatten :
      (r : Outcome Bytes) (s : Outcome (List Bytes)) (t : Outcome Bytes)
      → t ≡ map_ok flatten s
      → (r >>= λ head. t >>= λ tail. ok (head ++ tail))
        ≡ map_ok flatten (r >>= λ head. s >>= λ tail. ok (head ∷ tail))
  unfolding flatten
  joined-flatten (err e) s t h = refl
  joined-flatten (ok head) (ok tail) t h = rw h refl
  joined-flatten (ok head) (err e) t h = rw h refl

  pub rows_bytes-written_rows :
      (left row : ℕ)
      → rows_bytes P encoder batch left row ≡ map_ok flatten (written_rows P encoder batch left row)
  unfolding flatten
  rows_bytes-written_rows zero row = refl
  rows_bytes-written_rows (suc left) row =
      joined-flatten (write_row P encoder batch row [])
        (written_rows P encoder batch left (row + 1)) _ (rows_bytes-written_rows left (row + 1))
