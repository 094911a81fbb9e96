-- ===== src/Postgres/Decoder.antt =====
-- crates/transferred-postgres/src/source/pg_to_arrow.rs: the columns of a statement, and the decoding
-- of a batch of rows into them.
use transferred.Prelude.{Text, List, [], ◌∷◌, map, ok, map_err, collect, length, ◌>>=◌}
use transferred.Prelude.Bytes.{Bytes}
use transferred.Core.Error.{lit, text, Outcome, source_failed, display, arrow}
use transferred.Core.Arrow.{ArrowField, Array, RecordBatch}
use transferred.Postgres.Protocol.{Protocol, PgColumn, Cell}
use transferred.Postgres.Geoarrow.{CrsMaker}
use transferred.Postgres.CopyOut.{cells_new, take_cell}
use transferred.Postgres.PgToArrow.{Decoding, decoding_of, arrow_type, field_of}
use transferred.Postgres.Append.{append}

pub record ColumnDecoder : Type 0 where
  pub name : Text
  pub decoding : Decoding
  pub builder : Array

pub record Decoder : Type 0 where
  pub schema : List ArrowField
  pub decoders : List ColumnDecoder

module _ (P : Protocol) where
  unfoldable pub fresh_builder : Decoding → Array
  fresh_builder decoding = P.make_builder (arrow_type decoding)

  unfoldable pub column_new : CrsMaker → PgColumn → Outcome ColumnDecoder
  unfolding fresh_builder
  column_new maker column = do
    decoding ← decoding_of maker column.column_type column.type_modifier
    ok (record { name = column.column_name; decoding = decoding; builder = fresh_builder decoding })

  -- The message holds what the error displays, which is the line of its variant alone.
  unfoldable pub column_append : ColumnDecoder → Cell → Outcome ColumnDecoder
  column_append self cell = do
    builder ←
        map_err (λ error. source_failed (lit "column " ∷ text self.name ∷ lit ": " ∷ display error))
          (append P self.decoding self.builder cell)
    ok (record self { builder = builder })

  -- The array, and the decoder with a fresh builder.
  unfoldable pub column_finish : ColumnDecoder → Array × ColumnDecoder
  unfolding fresh_builder
  column_finish self = (self.builder, record self { builder = fresh_builder self.decoding })

  unfoldable pub derive : CrsMaker → List PgColumn → Outcome Decoder
  unfolding column_new
  derive maker columns = do
    decoders ← collect (column_new maker) columns
    fields ← collect (λ (decoder : ColumnDecoder). field_of decoder.decoding decoder.name) decoders
    ok (record { schema = fields; decoders = decoders })

  -- The inner loop of `decode`: a cell for each column.
  unfoldable pub append_cells : List ColumnDecoder → Bytes → Outcome (List ColumnDecoder)
  unfolding column_append
  append_cells [] cells = ok []
  append_cells (decoder ∷ decoders) cells = do
    (cell, rest) ← take_cell cells
    decoder' ← column_append decoder cell
    decoders' ← append_cells decoders rest
    ok (decoder' ∷ decoders')

  unfoldable pub append_rows : List ColumnDecoder → List Bytes → Outcome (List ColumnDecoder)
  unfolding append_cells
  append_rows decoders [] = ok decoders
  append_rows decoders (row ∷ rows) = do
    cells ← cells_new row (length decoders)
    decoders' ← append_cells decoders cells
    append_rows decoders' rows

  unfoldable pub decode_batch : Decoder → List Bytes → Outcome (RecordBatch × Decoder)
  unfolding append_rows column_finish
  decode_batch self rows = do
    filled ← append_rows self.decoders rows
    let finished = map column_finish filled
    batch ← map_err arrow (P.try_new_batch self.schema (map (λ f. f.0) finished))
    ok (batch, record self { decoders = map (λ f. f.1) finished })
