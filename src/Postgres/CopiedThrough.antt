-- ===== src/Postgres/CopiedThrough.antt =====
-- A table that is copied from Postgres to Postgres: the batches that source.rs cuts it into, as
-- destination.rs loads them.
use mathlib.Core.List.{zip, flatten}
use transferred.Prelude.{
  ℕ, zero, suc, ◌+◌, ◌-◌, ◌<◌, ◌≤◌, ◌≡◌, refl, ap, sym, ◌∙◌, List, [], ◌∷◌, ◌++◌, append-nil, map,
  Result, ok, err, map_ok, ◌>>=◌, All, arith,
}
use transferred.Prelude.Bytes.{Bytes, be_i16}
use transferred.Core.Error.{Outcome}
use transferred.Core.Arrow.{ArrowField, RecordBatch}
use transferred.Core.Transfer.{BatchStream}
use transferred.Postgres.Constants.{copy_header, copy_trailer}
use transferred.Postgres.Protocol.{Protocol}
use transferred.Postgres.Client.{Client}
use transferred.Postgres.Encoder.{
  Encoder, encoder_new, write_row, write_fields, write_field, column_write,
}
use transferred.Postgres.EncoderShape.{encoder_new-IsEncoderOf}
use transferred.Postgres.Destination.{Loader, replace, first_batch}
use transferred.Postgres.Appending.{AppendsRanges}
use transferred.Postgres.Chunks.{Accepts, copy_into, rows_bytes, batches_bytes}
use transferred.Postgres.Committed.{Swapped}
use transferred.Postgres.Succeeding.{Serves, replace_succeeds}
use transferred.Postgres.Lanes.{Lane, IsLane, written_rows, written_column, zip-map, slices}
use transferred.Postgres.WrittenSlices.{write-between}
use transferred.Postgres.TableRoundTrip.{Slices, no_rows, rows_then, Slices-le}
use transferred.Postgres.SentRows.{written_rows-part, flatten-append-bytes, rows_bytes-written_rows}

ok_injective : {A E : Type 0} {a b : A} → ◌≡◌ {A = Result A E} (ok a) (ok b) → a ≡ b
ok_injective h = cc

bind_same :
    {A B : Type 0} (m : Outcome A) (f g : A → Outcome B)
    → ((a : A) → f a ≡ g a)
    → (m >>= f) ≡ (m >>= g)
bind_same (ok a) f g h = h a
bind_same (err e) f g h = refl

module _ (P : Protocol) (n : ℕ) (from to : ℕ) where
  write_fields-Slices :
      (lanes : List Lane) (row k : ℕ) (buf : Bytes)
      → All (IsLane P n) lanes
      → k ≡ from + row
      → k < to
      → write_fields P
          (zip (map (λ (lane : Lane). lane.encoder) lanes) (slices from to lanes))
          row
          buf
        ≡ write_fields P (map written_column lanes) k buf
  unfolding zip write_fields write_field column_write
  write_fields-Slices [] row k buf h here lt = refl
  write_fields-Slices (lane ∷ lanes) row k buf ((reads, storable, _, _), hs) here lt =
      rw (write-between P from to row k here lt reads lane.array storable _)
        (bind_same _ _ _ (λ buf'. write_fields-Slices lanes row k buf' hs here lt))

-- A batch of the rows from one on and up to another, of a schema.
abbrev pub IsSlice : List ArrowField → List Lane → ℕ → ℕ → RecordBatch → Type 0
IsSlice schema lanes from to batch =
    (batch.schema ≡ schema) × (batch.columns ≡ slices from to lanes) × (batch.num_rows ≡ to - from)

-- A column for each lane, and the batches that hold consecutive rows of them.
module _ (P : Protocol) (n : ℕ) (encoder : Encoder) (batch : RecordBatch) (lanes : List Lane)
    (schema : List ArrowField) (batch_of : ℕ → ℕ → RecordBatch)
    (made : encoder_new P schema ≡ ok encoder)
    (encoders : encoder.columns ≡ map (λ (lane : Lane). lane.encoder) lanes)
    (arrays : batch.columns ≡ map (λ (lane : Lane). lane.array) lanes)
    (all : All (IsLane P n) lanes)
    (shaped : (from to : ℕ)
      → from ≤ to
      → to ≤ n
      → IsSlice schema lanes from to (batch_of from to)) where
  write_row-slice :
      (from to row k : ℕ)
      → to ≤ n
      → k ≡ from + row
      → k < to
      → write_row P encoder (batch_of from to) row [] ≡ write_row P encoder batch k []
  unfolding write_row
  write_row-slice from to row k in_all here lt =
      let (_, columns, _) = shaped from to (omega arith) in_all in
      rw (columns, encoders, arrays, zip-map lanes)
        (write_fields-Slices P n from to lanes row k _ all here lt)

  written_rows-slice :
      (from to left row k : ℕ)
      → to ≤ n
      → k ≡ from + row
      → k + left ≤ to
      → written_rows P encoder (batch_of from to) left row ≡ written_rows P encoder batch left k
  written_rows-slice from to zero row k in_all here fits = refl
  written_rows-slice from to (suc left) row k in_all here fits =
      rw
        (
          write_row-slice from to row k in_all here (omega arith),
          written_rows-slice from to left (row + 1) (k + 1) in_all (omega arith) (omega arith),
        )
        refl

  -- What the batches of a stream are sent as.
  batches_bytes-Slices :
      (from : ℕ) {batches : BatchStream} (left : ℕ) (messages : List Bytes)
      → Slices batch_of n from batches
      → from + left ≡ n
      → written_rows P encoder batch left from ≡ ok messages
      → batches_bytes P encoder batches ≡ ok (flatten messages)
  unfolding flatten
  batches_bytes-Slices from left messages no_rows ends wrote =
      let none_left : left ≡ 0 = omega arith in
      let same : [] ≡ messages = ok_injective (rw none_left at wrote) in rw (← same) refl
  batches_bytes-Slices from left messages (rows_then _ mid lt most rest) ends wrote =
      let le = Slices-le batch_of n mid rest in
      let split : left ≡ (mid - from) + (n - mid) = omega arith in
      let (front, others, same, first, behind) =
        written_rows-part P encoder batch (mid - from) (n - mid) from (rw split at wrote) in
      let (of_schema, _, count) = shaped from mid (omega arith) le in
      let (_, _, _, _, takes) = encoder_new-IsEncoderOf P schema encoder made in
      let sent : rows_bytes P encoder (batch_of from mid) (batch_of from mid).num_rows 0
          ≡ ok (flatten front) =
        ap (λ k. rows_bytes P encoder (batch_of from mid) k 0) count
        ∙ rows_bytes-written_rows P encoder (batch_of from mid) (mid - from) 0
        ∙ ap (map_ok flatten) (
            written_rows-slice from mid (mid - from) 0 from le (omega arith) (omega arith)
            ∙ first) in
      let behind' =
        ap (written_rows P encoder batch (n - mid)) {x = mid} {y = from + (mid - from)}
          (omega arith)
        ∙ behind in
      rw (takes (batch_of from mid) of_schema, sent)
        (rw (batches_bytes-Slices mid (n - mid) others rest (omega arith) behind')
          (ap ok (sym (ap flatten same ∙ flatten-append-bytes front others))))

  -- The first batch of a stream of some rows.
  first-slice :
      (from : ℕ) {batches : BatchStream}
      → from < n
      → Slices batch_of n from batches
      → (first : RecordBatch) × (rest : BatchStream) × (batches ≡ ok first ∷ rest)
        × (first.schema ≡ schema)
  first-slice from lt no_rows = absurd (omega arith)
  first-slice from lt (rows_then _ mid {batches} some_rows most cut) =
      let (of_schema, _, _) = shaped from mid (omega arith) (Slices-le batch_of n mid cut) in
      (batch_of from mid, batches, refl, of_schema)

  module _ {ℓ} {W : Type ℓ} (client : Client W) (server : Accepts client) (serves : Serves client)
      (appends : AppendsRanges P) where
    -- Over
    pub replace-Slices :
        (self : Loader) (messages : List Bytes) (w : W) {batches : BatchStream}
        → written_rows P encoder batch n 0 ≡ ok messages
        → 0 < n
        → Slices batch_of n 0 batches
        → (count : ℕ) × (loaded : W) × (w' : W) × (replace client P self (batches ∷ []) w
            ≡ (ok count, w'))
          × (server.sent loaded
              ≡ (copy_into self.staging, (copy_header ++ flatten messages) ++ be_i16 copy_trailer))
          × Swapped client P self loaded w'
    unfolding first_batch flatten
    replace-Slices self messages w wrote some_rows cut =
        let (first, rest, starts, of_schema) = first-slice 0 some_rows cut in
        replace_succeeds client server serves P appends encoder self (_ ∷ []) first rest
          (flatten messages) (ap first_batch (append-nil _ ∙ starts))
          (ap (encoder_new P) of_schema ∙ made)
          (ap (batches_bytes P encoder) (sym starts)
            ∙ batches_bytes-Slices 0 n messages cut (omega arith) wrote)
          w
