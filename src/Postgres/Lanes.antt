-- ===== src/Postgres/Lanes.antt =====
-- The columns of a batch on their way through destination/arrow_to_pg.rs and source/pg_to_arrow.rs.
use mathlib.Core.List.{zip}
use transferred.Prelude.{
  ℕ, zero, suc, ◌+◌, ◌≡◌, refl, ap, ◌∙◌, Text, List, [], ◌∷◌, map, ok, ◌>>=◌, length, All,
}
use transferred.Prelude.Bytes.{Bytes}
use transferred.Core.Error.{Outcome}
use transferred.Core.Arrow.{Array, RecordBatch}
use transferred.Postgres.Protocol.{Protocol}
use transferred.Postgres.PgToArrow.{Decoding}
use transferred.Postgres.Decoder.{ColumnDecoder, fresh_builder}
use transferred.Postgres.Encoder.{ColumnEncoder, Encoder, write_row}
use transferred.Postgres.Values.{Reads, IsStorable}
use transferred.Postgres.Windows.{between, between_all, between_none}
use transferred.Postgres.Aligned.{IsAligned}

-- A column on its way: how it is written, its values, and how it is read.
pub record Lane : Type 0 where
  pub encoder : ColumnEncoder
  pub array : Array
  pub name : Text
  pub decoding : Decoding

abbrev pub written_column : Lane → ColumnEncoder × Array
written_column lane = (lane.encoder, lane.array)

-- The reader of a column after the rows from one on and up to another.
abbrev pub reader_at : ℕ → ℕ → Lane → ColumnDecoder
reader_at from row lane = record {
  name = lane.name;
  decoding = lane.decoding;
  builder = between from row lane.array;
}

-- The reader reads the type that is written, and starts empty; the values are those of `n` rows, and
-- such as Postgres can hold.
abbrev pub IsLane : Protocol → ℕ → Lane → Type 0
IsLane P n lane =
    Reads lane.encoder.encoding lane.decoding
    × IsStorable P lane.encoder.encoding lane.array
    × IsAligned n lane.array
    × (fresh_builder P lane.decoding ≡ between 0 0 lane.array)

-- The messages of so many rows from a row on, up to the first error.
abbrev pub written_rows : Protocol → Encoder → RecordBatch → ℕ → ℕ → Outcome (List Bytes)
written_rows P encoder batch zero row = ok []
written_rows P encoder batch (suc left) row = write_row P encoder batch row [] >>= λ head.
    written_rows P encoder batch left (row + 1) >>= λ tail. ok (head ∷ tail)

pub zip-map :
    (lanes : List Lane)
    → zip (map (λ (lane : Lane). lane.encoder) lanes) (map (λ (lane : Lane). lane.array) lanes)
      ≡ map written_column lanes
unfolding zip
zip-map [] = refl
zip-map (lane ∷ lanes) = ap (λ rest. written_column lane ∷ rest) (zip-map lanes)

pub length_readers :
    (from row : ℕ) (lanes : List Lane) → length (map (reader_at from row) lanes) ≡ length lanes
length_readers from row [] = refl
length_readers from row (lane ∷ lanes) = ap suc (length_readers from row lanes)

-- Before any row, wherever the rows start.
pub fresh_readers :
    (from : ℕ) (lanes : List Lane) → map (reader_at from from) lanes ≡ map (reader_at 0 0) lanes
fresh_readers from [] = refl
fresh_readers from (lane ∷ lanes) =
    ap (λ b. record (reader_at 0 0 lane) { builder = b } ∷ map (reader_at from from) lanes)
      (between_none lane.array from)
    ∙ ap (λ rest. reader_at 0 0 lane ∷ rest) (fresh_readers from lanes)

-- The arrays of the rows from one on and up to another.
abbrev pub slices : ℕ → ℕ → List Lane → List Array
slices from to lanes = map (λ (lane : Lane). between from to lane.array) lanes

pub slices_whole :
    (P : Protocol) (n : ℕ) (lanes : List Lane)
    → All (IsLane P n) lanes
    → slices 0 n lanes ≡ map (λ (lane : Lane). lane.array) lanes
slices_whole P n [] h = refl
slices_whole P n (lane ∷ lanes) ((_, _, aligned, _), hs) =
    ap (λ a. a ∷ slices 0 n lanes) (between_all lane.array n aligned)
    ∙ ap (λ rest. lane.array ∷ rest) (slices_whole P n lanes hs)

pub length_encoders :
    (lanes : List Lane) → length (map (λ (lane : Lane). lane.encoder) lanes) ≡ length lanes
length_encoders [] = refl
length_encoders (lane ∷ lanes) = ap suc (length_encoders lanes)
