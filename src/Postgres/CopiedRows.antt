-- ===== src/Postgres/CopiedRows.antt =====
-- The rows that a COPY stream brings, for copy_out.rs.
use transferred.Prelude.{
  append-nil, false, true, Bool, ◌&&◌, ◌%◌, ◌/◌, ◌==◌, ◌∙◌, ℕ, ◌<◌, ◌≡◌, refl, ap, List, [], ◌∷◌,
  ◌++◌, map, some, Result, ok, All, arith,
}
use transferred.Prelude.Int.{pos}
use transferred.Prelude.Bytes.{Bytes, be_i16, starts_with}
use transferred.Core.Error.{AnyError}
use transferred.Postgres.Constants.{copy_header, copy_trailer}
use transferred.Postgres.CopyOut.{past_header, row, rows}

-- A row: its field count, and whatever its fields are.
abbrev pub FramedRow : Type 0
FramedRow = ℕ × Bytes

abbrev pub framed : FramedRow → Bytes
framed (count, fields) = be_i16 (pos count) ++ fields

-- A message of so many fields.
abbrev pub IsRow : ℕ → Bytes → Type 0
IsRow count message = (fields : Bytes) × (message ≡ framed (count, fields))

-- "PG", which the header starts with, is the count 20551.
abbrev pub IsCount : FramedRow → Type 0
IsCount (count, fields) = count < 20551

not_header :
    (count : ℕ) (fields : Bytes)
    → count < 20551
    → starts_with (be_i16 (pos count) ++ fields) copy_header ≡ false
unfolding be_i16 starts_with
not_header count fields h =
    both (count % 65536 / 256 == 80) (count % 65536 % 256 == 71) _ (ground arith)
  where
    both : (a b rest : Bool) → a && b ≡ false → a && (b && rest) ≡ false
    both true true rest e = absurd (cc e)
    both true false rest e = refl
    both false b rest e = refl

not_trailer :
    (count : ℕ) (fields : Bytes)
    → count < 20551
    → starts_with (be_i16 (pos count) ++ fields) (be_i16 copy_trailer) ≡ false
unfolding be_i16 starts_with
not_trailer count fields h = ground arith

row-framed : (r : FramedRow) → IsCount r → row (framed r) ≡ some (framed r)
unfolding row past_header be_i16 starts_with
row-framed (count, fields) h =
    rw (row, past_header, not_header count fields h) (rw (not_trailer count fields h) refl)

row-headed : (r : FramedRow) → IsCount r → row (copy_header ++ framed r) ≡ some (framed r)
unfolding row past_header be_i16 starts_with
row-headed (count, fields) h = ground arith

rows-framed :
    (rs : List FramedRow) (after : List (Result Bytes AnyError))
    → All IsCount rs
    → rows (map ok (map framed rs) ++ after) ≡ map ok (map framed rs) ++ rows after
unfolding rows
rows-framed [] after h = refl
rows-framed (r ∷ rs) after h =
    rw (rows, row-framed r h.0) (ap (λ rest. ok (framed r) ∷ rest) (rows-framed rs after h.1))

rows_trailer : rows (ok (be_i16 copy_trailer) ∷ []) ≡ []
unfolding rows row be_i16 starts_with
rows_trailer = refl

-- The messages of a COPY: the header comes in front of the first row, and the trailer behind the last.
abbrev pub copied_out : List Bytes → List (Result Bytes AnyError)
copied_out [] = ok (copy_header ++ be_i16 copy_trailer) ∷ []
copied_out (first ∷ rest) =
    ok (copy_header ++ first) ∷ (map ok rest ++ ok (be_i16 copy_trailer) ∷ [])

-- What the source reads of a COPY whose rows have fewer than 20551 fields each is its rows in
-- order, or nothing where it has none: the header in front is taken off, the trailer is dropped,
-- and no row is.
pub rows-copy :
    (rs : List FramedRow)
    → All IsCount rs
    → rows (copied_out (map framed rs)) ≡ map ok (map framed rs)
unfolding rows row past_header be_i16 starts_with
rows-copy [] h = refl
rows-copy (first ∷ rest) h =
    rw (rows, row-headed first h.0)
      (ap (λ tail. ok (framed first) ∷ tail)
        (rows-framed rest (ok (be_i16 copy_trailer) ∷ []) h.1 ∙ rw rows_trailer (append-nil _)))

-- The same of messages that are rows of one count of fields.
pub rows-copied_out :
    (count : ℕ) (messages : List Bytes)
    → count < 20551
    → All (IsRow count) messages
    → rows (copied_out messages) ≡ map ok messages
rows-copied_out count messages few all =
    let (rs, counts, same) = of_messages messages all in rw (← same) (rows-copy rs counts)
  where
    of_messages :
        (messages : List Bytes)
        → All (IsRow count) messages
        → (rs : List FramedRow) × All IsCount rs × (map framed rs ≡ messages)
    of_messages [] h = ([], tt, refl)
    of_messages (message ∷ messages) ((fields, same), h) =
        let (rs, counts, rest) = of_messages messages h in
        ((count, fields) ∷ rs, (few, counts), rw (rest, same) refl)
