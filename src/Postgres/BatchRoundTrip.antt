-- ===== src/Postgres/BatchRoundTrip.antt =====
-- A batch as its rows are written, and decoded again: `Encoder::write_row` in destination/arrow_to_pg.rs
-- against `Decoder::decode` in source/pg_to_arrow.rs.
use mathlib.Core.List.{zip}
use transferred.Prelude.{
  ℕ, zero, suc, ◌+◌, ◌<◌, ◌≡◌, refl, ap, List, [], ◌∷◌, map, ok, arith, length, All,
}
use transferred.Prelude.Int.{pos}
use transferred.Prelude.Bytes.{Bytes}
use transferred.Core.Arrow.{ArrowField, Array, RecordBatch}
use transferred.Postgres.Protocol.{Protocol, Cell}
use transferred.Postgres.CopyOut.{cells_new}
use transferred.Postgres.Append.{append}
use transferred.Postgres.Decoder.{
  ColumnDecoder, column_append, column_finish, append_cells, append_rows, decode_batch,
}
use transferred.Postgres.Write.{write}
use transferred.Postgres.Encoder.{Encoder, column_write, write_row}
use transferred.Postgres.Appending.{AppendsRanges}
use transferred.Postgres.RowRoundTrip.{
  AllWritten, written_of, fields_bytes, row_bytes, take_cell-field_bytes, cells_new-be_i16,
  take_cells-write_row,
}
use transferred.Postgres.Values.{IsFaithful, limit, limit-le}
use transferred.Postgres.Windows.{between}
use transferred.Postgres.Slots.{IsBelow-IsShort}
use transferred.Postgres.RangeRoundTrip.{CarriesRanges}
use transferred.Prelude.{◌≤◌, ◌++◌}
use transferred.Prelude.Bytes.{be_i16}
use transferred.Postgres.CopiedRows.{IsRow}
use transferred.Postgres.ValueRoundTrip.{value-Carried}
use transferred.Postgres.Lanes.{
  Lane, IsLane, reader_at, written_column, written_rows, length_readers, fresh_readers, slices,
  slices_whole,
}

module _ (P : Protocol) (laws : IsFaithful P) (appends : AppendsRanges P)
    (carries : CarriesRanges P) (n : ℕ) where
  column_append-reader :
      (lane : Lane) (from row : ℕ) (cell : Cell)
      → append P lane.decoding (between from row lane.array) cell
        ≡ ok (between from (row + 1) lane.array)
      → column_append P (reader_at from row lane) cell ≡ ok (reader_at from (row + 1) lane)
  unfolding column_append
  column_append-reader lane from row cell h = rw h refl

  column_write-lane :
      (lane : Lane) (row : ℕ) (cell : Cell)
      → write P lane.encoder.encoding lane.array row [] ≡ ok (written_of cell)
      → column_write P lane.encoder lane.array row [] ≡ ok (written_of cell)
  unfolding column_write
  column_write-lane lane row cell h = rw h refl

  -- One row: the cells that it is written as, and the readers after them.
  row_carried :
      (lanes : List Lane) (from row : ℕ)
      → All (IsLane P n) lanes
      → from ≤ row
      → row < n
      → (cells : List Cell) × (length cells ≡ length lanes)
        × AllWritten P (map written_column lanes) row cells
        × (append_cells P (map (reader_at from row) lanes) (fields_bytes cells)
            ≡ ok (map (reader_at from (row + 1)) lanes))
  unfolding append_cells
  row_carried [] from row h le lt = ([], refl, tt, refl)
  row_carried (lane ∷ lanes) from row ((reads, storable, aligned, _), hs) le lt =
      let (cell, few, _, written, appended) =
        value-Carried P laws appends carries reads lane.array n from row storable aligned le lt in
      let short =
        IsBelow-IsShort (limit lane.encoder.encoding) cell (limit-le lane.encoder.encoding) few in
      let (cells, many, all, rest) = row_carried lanes from row hs le lt in
      (
        cell ∷ cells,
        ap suc many,
        (short, column_write-lane lane row cell written, all),
        rw (take_cell-field_bytes cell (fields_bytes cells) short)
            (rw (column_append-reader lane from row cell appended) (rw rest refl)),
      )

  finished_arrays :
      (lanes : List Lane) (from to : ℕ)
      → All (IsLane P n) lanes
      → (map
            (λ (f : Array × ColumnDecoder). f.0)
            (map (column_finish P) (map (reader_at from to) lanes))
          ≡ slices from to lanes)
        × (map
              (λ (f : Array × ColumnDecoder). f.1)
              (map (column_finish P) (map (reader_at from to) lanes))
            ≡ map (reader_at 0 0) lanes)
  unfolding column_finish
  finished_arrays [] from to h = (refl, refl)
  finished_arrays (lane ∷ rest) from to ((_, _, _, fresh), hs) =
      let (arrays, readers) = finished_arrays rest from to hs in
      (
        ap (λ r. between from to lane.array ∷ r) arrays,
        rw readers (
            ap (λ b. record (reader_at 0 0 lane) { builder = b } ∷ map (reader_at 0 0) rest) fresh),
      )

  module _ (encoder : Encoder) (batch : RecordBatch) (lanes : List Lane)
      (columns : zip encoder.columns batch.columns ≡ map written_column lanes)
      (count : encoder.field_count ≡ pos (length lanes)) (few : length lanes < 32768)
      (all : All (IsLane P n) lanes) where
    row_written :
        (row : ℕ) (cells : List Cell)
        → length cells ≡ length lanes
        → AllWritten P (map written_column lanes) row cells
        → write_row P encoder batch row [] ≡ ok (row_bytes cells)
    row_written row cells many written =
        (take_cells-write_row P appends encoder batch row cells [] (rw many count) (rw many few)
          (rw columns written)).0

    row_counted :
        (from row : ℕ) (cells : List Cell)
        → length cells ≡ length lanes
        → cells_new (row_bytes cells) (length (map (reader_at from row) lanes))
          ≡ ok (fields_bytes cells)
    row_counted from row cells many =
        rw (length_readers from row lanes, ← many)
          (cells_new-be_i16 (length cells) (fields_bytes cells) (rw many few))

    pub rows_carried :
        (left from row to : ℕ)
        → from ≤ row
        → row + left ≡ to
        → to ≤ n
        → (messages : List Bytes) × (length messages ≡ left)
          × All (IsRow (length lanes)) messages
          × (written_rows P encoder batch left row ≡ ok messages)
          × (append_rows P (map (reader_at from row) lanes) messages
              ≡ ok (map (reader_at from to) lanes))
    unfolding append_rows
    rows_carried zero from row to le h in_all =
        ([], refl, tt, refl, ap (λ k. ok (map (reader_at from k) lanes)) (omega arith))
    rows_carried (suc left) from row to le h in_all =
        let (cells, many, written, read) = row_carried lanes from row all le (omega arith) in
        let (messages, rows, framed_all, rest, appended) =
          rows_carried left from (row + 1) to (omega arith) (omega arith) in_all in
        (
          row_bytes cells ∷ messages,
          ap suc rows,
          ((fields_bytes cells, ap (λ k. be_i16 (pos k) ++ fields_bytes cells) many), framed_all),
          rw (row_written row cells many written) (rw rest refl),
          rw (row_counted from row cells many) (rw read appended),
        )

    -- So many rows from one on, decoded as the batch that the schema makes of those rows.
    pub decode_batch-slice :
        (from left to : ℕ) (schema : List ArrowField) (decoded : RecordBatch)
        → from + left ≡ to
        → to ≤ n
        → P.try_new_batch schema (slices from to lanes) ≡ ok decoded
        → (messages : List Bytes) × (length messages ≡ left)
          × (written_rows P encoder batch left from ≡ ok messages)
          × (decode_batch P
                (record { schema = schema; decoders = map (reader_at 0 0) lanes })
                messages
              ≡ ok (decoded, record { schema = schema; decoders = map (reader_at 0 0) lanes }))
    unfolding decode_batch
    decode_batch-slice from left to schema decoded ends in_all built =
        let (messages, rows, _, written, appended) =
          rows_carried left from from to (omega arith) ends in_all in
        let (arrays, readers) = finished_arrays lanes from to all in
        (
          messages,
          rows,
          written,
          rw (← fresh_readers from lanes)
              (rw appended (rw (arrays, readers, fresh_readers from lanes) (rw built refl))),
        )

    -- Over crates whose writers and readers are inverse and range writers that append and whose
    -- ranges parse as their bounds: where an encoder announces as many columns as a batch has,
    -- fewer than 32768, and they hold values that Postgres can hold, ranges too whose bounds are
    -- neither texts nor bytes, each read by a decoding of the type it is written as, every row can
    -- be written, and the source's decoder, from empty builders, reads the messages as the batch
    -- that its schema makes of the same columns, and is left as it started.
    pub decode_batch-written_rows :
        (schema : List ArrowField) (decoded : RecordBatch)
        → P.try_new_batch schema (map (λ (lane : Lane). lane.array) lanes) ≡ ok decoded
        → (messages : List Bytes) × (length messages ≡ n)
          × (written_rows P encoder batch n 0 ≡ ok messages)
          × (decode_batch P
                (record { schema = schema; decoders = map (reader_at 0 0) lanes })
                messages
              ≡ ok (decoded, record { schema = schema; decoders = map (reader_at 0 0) lanes }))
    decode_batch-written_rows schema decoded built =
        decode_batch-slice 0 n n schema decoded (omega arith) (omega arith)
          (rw (slices_whole P n lanes all) built)
