-- ===== src/Postgres/TableRoundTrip.antt =====
-- A table that is read whole, in batches: PostgresSource::stream_partitions in
-- crates/transferred-postgres/src/source.rs against the rows that destination/arrow_to_pg.rs writes.
use mathlib.Core.List.{zip, flatten}
use transferred.Prelude.{
  ℕ, zero, suc, ◌+◌, ◌<◌, ◌≤◌, ◌≡◌, refl, ap, sym, ◌∙◌, Text, codes, List, [], ◌∷◌, ◌++◌, map,
  Result, ok, >>=-eq-ok, append-nil, arith, length, All,
}
use transferred.Prelude.Int.{pos}
use transferred.Prelude.Bytes.{Bytes}
use transferred.Core.Transfer.{BatchStream}
use transferred.Core.Arrow.{ArrowField, RecordBatch}
use transferred.Postgres.Protocol.{Protocol, PgColumn}
use transferred.Postgres.Geoarrow.{CrsMaker}
use transferred.Postgres.Client.{Client, Driver}
use transferred.Postgres.Connection.{connect}
use transferred.Postgres.CopiedRows.{copied_out, rows-copied_out}
use transferred.Postgres.ReadChunks.{IsChunk, try_chunks-IsChunked}
use transferred.Postgres.Decoder.{Decoder, derive}
use transferred.Postgres.Encoder.{Encoder, write_row}
use transferred.Postgres.Source.{
  PostgresSource, batch_rows, decode_chunks, verified_table, batches, stream_partitions,
}
use transferred.Postgres.Appending.{AppendsRanges}
use transferred.Postgres.Values.{IsFaithful}
use transferred.Postgres.RangeRoundTrip.{CarriesRanges}
use transferred.Postgres.Lanes.{Lane, IsLane, reader_at, written_column, written_rows, slices}
use transferred.Postgres.BatchRoundTrip.{rows_carried, decode_batch-slice}

-- A stream of the batches of consecutive rows, none without a row and none of more rows than a batch
-- has at most, from a row on and up to another.
pub data Slices (batch_of : ℕ → ℕ → RecordBatch) (to : ℕ) : ℕ → BatchStream → Type 0 where
  no_rows : Slices batch_of to to []
  rows_then :
      (from mid : ℕ) {batches : BatchStream}
      → from < mid
      → mid ≤ from + batch_rows
      → Slices batch_of to mid batches
      → Slices batch_of to from (ok (batch_of from mid) ∷ batches)

pub Slices-le :
    (batch_of : ℕ → ℕ → RecordBatch) (to from : ℕ) {batches : BatchStream}
    → Slices batch_of to from batches
    → from ≤ to
Slices-le batch_of to from no_rows = omega arith
Slices-le batch_of to from (rows_then _ mid lt most rest) =
    let le = Slices-le batch_of to mid rest in omega arith

ok_injective : {A E : Type 0} {a b : A} → ◌≡◌ {A = Result A E} (ok a) (ok b) → a ≡ b
ok_injective h = cc

module _ (P : Protocol) (encoder : Encoder) (batch : RecordBatch) where
  -- The rows that are written in one go are those that are written in two.
  written_rows-split :
      (chunk rest : List Bytes) (left row : ℕ)
      → written_rows P encoder batch left row ≡ ok (chunk ++ rest)
      → (more : ℕ) × (left ≡ length chunk + more)
        × (written_rows P encoder batch (length chunk) row ≡ ok chunk)
        × (written_rows P encoder batch more (row + length chunk) ≡ ok rest)
  written_rows-split [] rest left row h =
      (left, omega arith, refl, ap (written_rows P encoder batch left) (omega arith) ∙ h)
  written_rows-split (m ∷ chunk) rest zero row h = absurd (cc h)
  written_rows-split (m ∷ chunk) rest (suc left) row h =
      let (head, wrote, behind) = >>=-eq-ok (write_row P encoder batch row []) _ h in
      let (tail, wrote_tail, both) =
        >>=-eq-ok (written_rows P encoder batch left (row + 1)) _ behind in
      let same : head ∷ tail ≡ m ∷ (chunk ++ rest) = ok_injective both in
      let heads : head ≡ m = cc same in
      let tails : tail ≡ chunk ++ rest = cc same in
      let (more, count, first, others) =
        written_rows-split chunk rest left (row + 1) (wrote_tail ∙ ap ok tails) in
      (
        more,
        omega (arith, count),
        rw (wrote ∙ ap ok heads) (rw first refl),
        ap (written_rows P encoder batch more) (omega arith) ∙ others,
      )

  length-written_rows :
      (messages : List Bytes) (left row : ℕ)
      → written_rows P encoder batch left row ≡ ok messages
      → length messages ≡ left
  length-written_rows messages left row h =
      let (more, count, _, others) =
        written_rows-split messages [] left row (h ∙ ap ok (sym (append-nil messages))) in
      none_more more count others
    where
      none_more :
          (more : ℕ)
          → left ≡ length messages + more
          → written_rows P encoder batch more (row + length messages) ≡ ok []
          → length messages ≡ left
      none_more zero count others = omega (arith, count)
      none_more (suc more) count others =
          let (head, _, behind) =
            >>=-eq-ok (write_row P encoder batch (row + length messages) []) _ others in
          let (tail, _, both) =
            >>=-eq-ok (written_rows P encoder batch more (row + length messages + 1)) _ behind in
          absurd (cc both)

module _ (P : Protocol) (laws : IsFaithful P) (appends : AppendsRanges P)
    (carries : CarriesRanges P) (n : ℕ) (encoder : Encoder) (batch : RecordBatch)
    (lanes : List Lane) (columns : zip encoder.columns batch.columns ≡ map written_column lanes)
    (count : encoder.field_count ≡ pos (length lanes)) (few : length lanes < 20551)
    (all : All (IsLane P n) lanes) (schema : List ArrowField) (batch_of : ℕ → ℕ → RecordBatch)
    (built : (from to : ℕ)
      → from ≤ to
      → to ≤ n
      → P.try_new_batch schema (slices from to lanes) ≡ ok (batch_of from to)) where
  abbrev at_start : Decoder
  at_start = record { schema = schema; decoders = map (reader_at 0 0) lanes }

  -- The messages of the rows from one on, in chunks.
  decode_chunks-Slices :
      (chunks : List (List Bytes)) (from left : ℕ)
      → written_rows P encoder batch left from ≡ ok (flatten chunks)
      → from + left ≡ n
      → All (IsChunk batch_rows) chunks
      → Slices batch_of n from (decode_chunks P at_start (map ok chunks))
  unfolding flatten decode_chunks
  decode_chunks-Slices [] from left h ends chunked =
      let done : from ≡ n = omega (arith, length-written_rows P encoder batch [] left from h) in
      rw done no_rows
  decode_chunks-Slices (chunk ∷ chunks) from left h ends ((some_rows, at_most), chunked) =
      let (more, total, first, others) =
        written_rows-split P encoder batch chunk (flatten chunks) left from h in
      let mid = from + length chunk in
      let in_all : mid ≤ n = omega arith in
      let (messages, _, wrote, decoded) =
        decode_batch-slice P laws appends carries n encoder batch lanes columns count (omega arith)
          all from (length chunk) mid schema (batch_of from mid) refl in_all
          (built from mid (omega arith) in_all) in
      let same : messages ≡ chunk = ok_injective (sym wrote ∙ first) in
      rw (decode_chunks, rw same at decoded)
        (rows_then from mid (omega arith) (omega arith)
          (decode_chunks-Slices chunks mid more others (omega arith) chunked))

  module _ {ℓ} {W : Type ℓ} (client : Client W) (maker : CrsMaker) (driver : Driver W) where
    -- Over crates whose writers and readers are inverse, range writers that append and whose ranges
    -- parse as their bounds, and arrow building a batch of the rows of a schema's columns from any
    -- one on and up to any other: where an encoder announces as many columns as a batch has, fewer
    -- than 20551, which hold values that Postgres can hold, ranges too whose bounds are neither
    -- texts nor bytes, and a server that is connected to answers columns that the source's decoder
    -- has the same schema and the matching decodings for, and a COPY of the messages that the
    -- batch's rows are written as, the source streams one partition, without an error: batches of
    -- consecutive rows of those columns, from the first row to the last, none empty and none of
    -- more than 10000 rows.
    pub stream_partitions-Slices :
        (self : PostgresSource) (table : Text) (answered : List PgColumn) (messages : List Bytes)
        (w connected resolved prepared copied : W)
        → written_rows P encoder batch n 0 ≡ ok messages
        → derive P maker answered ≡ ok at_start
        → connect driver self.dsn w ≡ (ok tt, connected)
        → client.regclass self.table connected ≡ (ok table, resolved)
        → client.prepare (codes "select * from " ++ table) resolved ≡ (ok answered, prepared)
        → client.copy_out
            (codes "copy (select * from " ++ (table ++ codes ") to stdout (format binary)"))
            prepared
          ≡ (ok (copied_out messages), copied)
        → (batches : BatchStream) × (stream_partitions P client maker driver self w
            ≡ (ok (batches ∷ []), copied))
          × Slices batch_of n 0 batches
    unfolding stream_partitions batches verified_table
    stream_partitions-Slices self table answered messages w connected resolved prepared copied wrote
          derived connects resolves prepares copies =
        let (messages', _, rows_of, wrote', _) =
          rows_carried P laws appends carries n encoder batch lanes columns count (omega arith) all
            n 0 0 n (omega arith) (omega arith) (omega arith) in
        let same : messages' ≡ messages = ok_injective (sym wrote' ∙ wrote) in
        let read = rows-copied_out (length lanes) messages few (rw same at rows_of) in
        let (chunks, found, joined, chunked) =
          try_chunks-IsChunked batch_rows messages (omega arith) in
        (
          decode_chunks P at_start (map ok chunks),
          rw (connects, resolves, prepares, copies, derived, read, found) refl,
          decode_chunks-Slices chunks 0 n (wrote ∙ ap ok (sym joined)) (omega arith) chunked,
        )
