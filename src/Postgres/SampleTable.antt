-- ===== src/Postgres/SampleTable.antt =====
-- A table of two rows, for the examples: its column, the server that has it, and its batches.
use transferred.Postgres.PgToArrow
use transferred.Core.Arrow.{int32s}
use transferred.Prelude.{refl, ℕ, codes, List, [], ◌∷◌, some, none, ok, length, take, drop}
use transferred.Prelude.Int.{pos, negsuc}
use transferred.Prelude.Bytes.{Bytes}
use transferred.Core.Arrow.{RecordBatch}
use transferred.Postgres.Protocol.{PgColumn, PgType}
use transferred.Postgres.Client.{Client}
use transferred.Postgres.CopiedRows.{copied_out}
use transferred.Postgres.PgToArrow.{arrow_type, decoding_of, field_of}
use transferred.Postgres.Lanes.{Lane, slices}
use transferred.Postgres.Succeeding.{Serves}
use transferred.Postgres.Samples.{client, id_encoder, schema}

-- A column of the value 7 and a null.
abbrev pub ids : Lane
ids = record {
  encoder = id_encoder;
  array = int32s (some (pos 7) ∷ none ∷ []);
  name = codes "id";
  decoding = PgToArrow.int4;
}

-- The row of the one value 7, and that of a null.
abbrev pub messages : List Bytes
messages = (0 ∷ 1 ∷ 0 ∷ 0 ∷ 0 ∷ 4 ∷ 0 ∷ 0 ∷ 0 ∷ 7 ∷ []) ∷ (0 ∷ 1 ∷ 255 ∷ 255 ∷ 255 ∷ 255 ∷ []) ∷ []

abbrev pub answered : List PgColumn
answered =
    record { column_name = codes "id"; type_modifier = negsuc 0; column_type = PgType.int4 } ∷ []

-- A server with the table.
abbrev pub answering : (W : Type 0) → Client W
answering W = record {
  batch_execute = λ sql w. (ok tt, w);
  parse_ident = λ name w. (ok (name ∷ []), w);
  regclass = λ name w. (ok name, w);
  prepare = λ sql w. (ok answered, w);
  copy_out = λ sql w. (ok (copied_out messages), w);
  copy_in = λ sql w. (ok tt, w);
  send = λ bytes w. (ok tt, w);
  finish = λ w. (ok 0, w);
  drop_sink = λ w. w;
  transaction = λ w. (ok tt, w);
  execute_in = λ sql w. (ok tt, w);
  commit = λ w. (ok tt, w);
  rollback = λ w. w;
}

abbrev pub rows_between : ℕ → ℕ → RecordBatch
rows_between from to = record {
  schema = schema;
  columns = slices from to (ids ∷ []);
  num_rows = length (drop from (take to (some (pos 7) ∷ none ∷ [])));
}

-- The server of the loads runs every statement.
abbrev pub serves : Serves client
serves = record {
  batch_execute_lem = λ sql w. (w, refl);
  transaction_lem = λ w. (w, refl);
  execute_in_lem = λ sql w. (w, refl);
  commit_lem = λ w. ((w.0, codes "new"), refl);
}
