-- ===== src/Postgres/RowRoundTrip.antt =====
-- A COPY row as it is written, and read back: arrow_to_pg.rs against copy_out.rs.
use mathlib.Core.List.{zip}
use transferred.Prelude.{
  ℕ, zero, suc, ◌<◌, ◌≡◌, refl, ap, sym, ◌∙◌, List, [], ◌∷◌, ◌++◌, append_assoc, append-nil, some,
  none, Result, ok, err, map_err, ◌>>=◌, arith, length, length-append, take, take-append,
  drop-append, leb, true, All,
}
use transferred.Prelude.Int.{pos}
use transferred.Prelude.Bytes.{Bytes, be_i16, be_i32, try_get_i16-be_i16, try_get_i32-be_i32}
use transferred.Core.Error.{Outcome}
use transferred.Core.Arrow.{Array, RecordBatch}
use transferred.Postgres.Constants.{null_field}
use transferred.Postgres.Protocol.{Protocol, IsNull, null, not_null, Cell}
use transferred.Postgres.CopyOut.{cells_new, take_cell}
use transferred.Postgres.Encoder.{
  ColumnEncoder, Encoder, column_write, write_field, write_fields, write_row, patch, field_len,
}
use transferred.Postgres.Write.{write}
use transferred.Postgres.Appending.{AppendsRanges, write-behind, behind}

-- What a column answers on an empty buffer, for the cell that it stands for.
abbrev pub written_of : Cell → IsNull × Bytes
written_of none = (null, [])
written_of (some bytes) = (not_null, bytes)

abbrev pub IsShort : Cell → Type 0
IsShort none = Unit
IsShort (some bytes) = length bytes < 2147483648

-- A field of the COPY format: the length, -1 for a NULL, and the bytes.
abbrev pub field_bytes : Cell → Bytes
field_bytes none = be_i32 null_field
field_bytes (some bytes) = be_i32 (pos (length bytes)) ++ bytes

abbrev pub fields_bytes : List Cell → Bytes
fields_bytes [] = []
fields_bytes (cell ∷ cells) = field_bytes cell ++ fields_bytes cells

-- Reading cells off a row, as the inner loop of `Decoder::decode` does.
unfoldable pub take_cells : ℕ → Bytes → Outcome (List Cell × Bytes)
take_cells zero row = ok ([], row)
take_cells (suc n) row = do
  (cell, rest) ← take_cell row
  (cells, rest') ← take_cells n rest
  ok (cell ∷ cells, rest')

pub patched :
    (buf four len bytes : Bytes)
    → patch (length buf) (length (buf ++ four)) len ((buf ++ four) ++ bytes)
      ≡ ok (buf ++ (len ++ bytes))
unfolding patch
patched buf four len bytes = rw (inside, front, drop-append (buf ++ four) bytes)
  where
    front : take (length buf) ((buf ++ four) ++ bytes) ≡ buf
    front = rw (append_assoc buf four bytes) (take-append buf (four ++ bytes))

    inside : leb (length (buf ++ four)) (length ((buf ++ four) ++ bytes)) ≡ true
    inside = rw (length-append (buf ++ four) bytes) (ground arith)

-- The length of a value is what stands behind the hole.
measured :
    (hole bytes : Bytes)
    → length bytes < 2147483648
    → field_len not_null (length (hole ++ bytes)) (length hole) ≡ ok (pos (length bytes))
unfolding field_len
measured hole bytes h = rw (length-append hole bytes) (ground arith)

map_err-eq-ok :
    {A E F : Type 0} (f : E → F) (r : Result A E) {a : A} → map_err f r ≡ ok a → r ≡ ok a
map_err-eq-ok f (ok b) h = cc
map_err-eq-ok f (err e) h = cc

-- Every column of a row stands for its cell.
abbrev pub AllWritten : Protocol → List (ColumnEncoder × Array) → ℕ → List Cell → Type 0
AllWritten P [] row [] = Unit
AllWritten P [] row (cell ∷ cells) = ⊥
AllWritten P (c ∷ columns) row [] = ⊥
AllWritten P ((column, a) ∷ columns) row (cell ∷ cells) =
    IsShort cell
    × (column_write P column a row [] ≡ ok (written_of cell))
    × AllWritten P columns row cells

module _ (P : Protocol) (laws : AppendsRanges P) where
  column_write-behind :
      (self : ColumnEncoder) (a : Array) (row : ℕ) (hole : Bytes) (p : IsNull × Bytes)
      → column_write P self a row [] ≡ ok p
      → column_write P self a row hole ≡ ok (p.0, hole ++ p.1)
  unfolding column_write
  column_write-behind self a row hole p h =
      let alone : write P self.encoding a row [] ≡ ok p = map_err-eq-ok _ _ h in
      let moved : write P self.encoding a row (hole ++ []) ≡ ok (p.0, hole ++ p.1) =
        write-behind P laws self.encoding a row hole [] ∙ ap (behind hole) alone in
      ap (map_err _) (rw (append-nil hole) at moved)

  write_field-eq :
      (self : ColumnEncoder) (a : Array) (row : ℕ) (cell : Cell) (buf : Bytes)
      → IsShort cell
      → column_write P self a row [] ≡ ok (written_of cell)
      → write_field P self a row buf ≡ ok (buf ++ field_bytes cell)
  unfolding write_field
  write_field-eq self a row none buf short h =
      rw (column_write-behind self a row (buf ++ be_i32 (pos 0)) (null, []) h) (
        unfold field_len in
        patched buf (be_i32 (pos 0)) (be_i32 null_field) []
        ∙ ap (λ tail. ok (buf ++ tail)) (append-nil (be_i32 null_field)))
  write_field-eq self a row (some bytes) buf short h =
      rw
        (
          column_write-behind self a row (buf ++ be_i32 (pos 0)) (not_null, bytes) h,
          measured (buf ++ be_i32 (pos 0)) bytes short,
        )
        (patched buf (be_i32 (pos 0)) (be_i32 (pos (length bytes))) bytes)

  write_fields-eq :
      (columns : List (ColumnEncoder × Array)) (row : ℕ) (cells : List Cell) (buf : Bytes)
      → AllWritten P columns row cells
      → write_fields P columns row buf ≡ ok (buf ++ fields_bytes cells)
  unfolding write_fields
  write_fields-eq [] row [] buf h = ap ok (sym (append-nil buf))
  write_fields-eq [] row (cell ∷ cells) buf h = absurd h
  write_fields-eq (c ∷ columns) row [] buf h = absurd h
  write_fields-eq ((column, a) ∷ columns) row (cell ∷ cells) buf h =
      rw (write_field-eq column a row cell buf h.0 h.1) (
        write_fields-eq columns row cells (buf ++ field_bytes cell) h.2
        ∙ ap ok (append_assoc buf (field_bytes cell) (fields_bytes cells)))

-- A field is read back as its cell, and what follows it is left.
pub take_cell-field_bytes :
    (cell : Cell) (rest : Bytes)
    → IsShort cell
    → take_cell (field_bytes cell ++ rest) ≡ ok (cell, rest)
unfolding take_cell
take_cell-field_bytes none rest h = rw (try_get_i32-be_i32 null_field rest (omega arith))
take_cell-field_bytes (some bytes) rest h =
    rw
      (
        append_assoc (be_i32 (pos (length bytes))) bytes rest,
        try_get_i32-be_i32 (pos (length bytes)) (bytes ++ rest) h,
      )
      (rw (fits, take-append bytes rest, drop-append bytes rest))
  where
    fits : leb (length bytes) (length (bytes ++ rest)) ≡ true
    fits = rw (length-append bytes rest) (ground arith)

take_cells-fields_bytes :
    (cells : List Cell)
    → All IsShort cells
    → take_cells (length cells) (fields_bytes cells) ≡ ok (cells, [])
unfolding take_cells
take_cells-fields_bytes [] h = refl
take_cells-fields_bytes (cell ∷ cells) h =
    rw (take_cell-field_bytes cell (fields_bytes cells) h.0, take_cells-fields_bytes cells h.1)

pub cells_new-be_i16 :
    (n : ℕ) (rest : Bytes) → n < 32768 → cells_new (be_i16 (pos n) ++ rest) n ≡ ok rest
unfolding cells_new
cells_new-be_i16 n rest h = rw (try_get_i16-be_i16 (pos n) rest h) (ground arith)

-- The message of a row of cells.
abbrev pub row_bytes : List Cell → Bytes
row_bytes cells = be_i16 (pos (length cells)) ++ fields_bytes cells

module _ (P : Protocol) (laws : AppendsRanges P) where
  AllWritten-IsShort :
      (columns : List (ColumnEncoder × Array)) (row : ℕ) (cells : List Cell)
      → AllWritten P columns row cells
      → All IsShort cells
  AllWritten-IsShort [] row [] h = tt
  AllWritten-IsShort [] row (cell ∷ cells) h = absurd h
  AllWritten-IsShort (c ∷ columns) row [] h = absurd h
  AllWritten-IsShort (c ∷ columns) row (cell ∷ cells) h =
      (h.0, AllWritten-IsShort columns row cells h.2)

  -- Over range writers that append, a row whose columns stand for given cells, as many as the
  -- encoder's field count, fewer than 32768 and none of 2 GiB or more, is written behind the
  -- buffer's contents, and the source's reader takes the same cells from what was written, with
  -- nothing left over.
  pub take_cells-write_row :
      (self : Encoder) (batch : RecordBatch) (row : ℕ) (cells : List Cell) (buf : Bytes)
      → self.field_count ≡ pos (length cells)
      → length cells < 32768
      → AllWritten P (zip self.columns batch.columns) row cells
      → (write_row P self batch row buf ≡ ok (buf ++ row_bytes cells))
        × ((cells_new (row_bytes cells) (length cells) >>= take_cells (length cells))
            ≡ ok (cells, []))
  unfolding write_row
  take_cells-write_row self batch row cells buf count few written = (
    rw count (
        write_fields-eq P laws (zip self.columns batch.columns) row cells
          (buf ++ be_i16 (pos (length cells))) written
        ∙ ap ok (append_assoc buf (be_i16 (pos (length cells))) (fields_bytes cells))),
    rw (cells_new-be_i16 (length cells) (fields_bytes cells) few) (
        take_cells-fields_bytes cells
          (AllWritten-IsShort (zip self.columns batch.columns) row cells written)),
  )
