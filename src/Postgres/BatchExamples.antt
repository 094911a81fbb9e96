-- ===== src/Postgres/BatchExamples.antt =====
-- The theorems on whole batches at concrete values.
use transferred.Postgres.SampleTable.{ids}
use mathlib.Core.List.{zip}
use transferred.Core.Arrow.{ArrowField, field, int32, Extension, RecordBatch}
use transferred.Postgres.PgRange.{fields}
use transferred.Postgres.Lanes.{Lane}
use transferred.Postgres.Encoder.{Encoder}
use transferred.Postgres.Decoder.{Decoder}
use transferred.Postgres.Samples.{id_encoder}
use transferred.Prelude.{◌≡◌, refl, codes, List, [], ◌∷◌, some, none, ok, length, arith}
use transferred.Prelude.Int.{pos}
use transferred.Prelude.Bytes.{Bytes}
use transferred.Core.Arrow.{int32s}
use transferred.Postgres.PgToArrow
use transferred.Postgres.PgToArrow.{arrow_type}
use transferred.Postgres.ArrowToPg
use transferred.Postgres.Decoder.{decode_batch, fresh_builder}
use transferred.Postgres.Values
use transferred.Postgres.ValueRoundTrip.{value-Carried}
use transferred.Postgres.Carried.{Carried}
use transferred.Postgres.Slots.{is_none}
use transferred.Prelude.{ℕ, zero, suc, ◌<◌}
use transferred.Core.Arrow.{Array}
use transferred.Postgres.Casts.{is_null, null_at}
use transferred.Postgres.Lanes.{reader_at, written_rows}
use transferred.Postgres.BatchRoundTrip.{decode_batch-written_rows}
use transferred.Postgres.Samples.{plain, plain-AppendsRanges}
use transferred.Postgres.FaithfulSample.{plain-IsFaithful}
use transferred.Prelude.{false}
use transferred.Postgres.ArrowToPg.{encoding_of}
use transferred.Prelude.{true}
use transferred.Prelude.Bytes.{be_i32, try_get_i32}
use transferred.Core.Arrow.{structs, bools}
use transferred.Postgres.Protocol.{Cell, PgType}
use transferred.Postgres.Append.{append}
use transferred.Postgres.Write.{write}
use transferred.Postgres.RowRoundTrip.{written_of, IsShort}
use transferred.Postgres.SampleWires.{int4_from_sql}
use transferred.Postgres.FaithfulRanges.{plain-CarriesRanges}
use transferred.Postgres.RangeRoundTrip.{five, bounds_row, append-write_range}

-- The range [7, infinity), and a null one.
abbrev pub spans : Array
spans = structs (true ∷ false ∷ []) (
    five (int32s (some (pos 7) ∷ none ∷ [])) (int32s (none ∷ none ∷ []))
      (bools (some true ∷ some false ∷ [])) (bools (some false ∷ some false ∷ []))
      (bools (some false ∷ some false ∷ [])))

spans-IsStorable : Values.IsStorable plain (ArrowToPg.range PgType.int4_range ArrowToPg.int4) spans
unfolding is_null null_at
spans-IsStorable = (refl, (omega arith, (tt, tt)), (tt, (tt, tt)), rows)
  where
    rows :
        (row : ℕ)
        → row < 2
        → Values.HasRange
            (true ∷ false ∷ [])
            (int32s (some (pos 7) ∷ none ∷ []))
            (int32s (none ∷ none ∷ []))
            (some true ∷ some false ∷ [])
            (some false ∷ some false ∷ [])
            (some false ∷ some false ∷ [])
            row
    rows zero h = (
      true,
      true,
      false,
      false,
      refl,
      refl,
      refl,
      refl,
      Values.RangeSlots.bounds_row false true true false refl refl,
    )
    rows (suc zero) h =
        (false, false, false, false, refl, refl, refl, refl, Values.RangeSlots.null_row)
    rows (suc (suc row)) h = absurd (omega arith)

value-Carried_example :
    Carried plain
      (ArrowToPg.range PgType.int4_range ArrowToPg.int4)
      (PgToArrow.range PgToArrow.int4)
      spans
      0
      1
value-Carried_example =
    value-Carried plain plain-IsFaithful plain-AppendsRanges plain-CarriesRanges
      (Values.Reads.range PgType.int4_range Values.Reads.int4) spans 2 0 1 spans-IsStorable
      (refl, (refl, (refl, (refl, (refl, (refl, tt)))))) (omega arith) (omega arith)

abbrev span_field : ArrowField
span_field =
    field (codes "span") (arrow_type (PgToArrow.range PgToArrow.int4)) true
      (some Extension.pg_range)

abbrev span_lane : Lane
span_lane = record {
  encoder = record {
    name = codes "span";
    encoding = ArrowToPg.range PgType.int4_range ArrowToPg.int4;
  };
  array = spans;
  name = codes "span";
  decoding = PgToArrow.range PgToArrow.int4;
}

-- A table of a column of numbers and one of ranges.
abbrev wide : RecordBatch
wide = record {
  schema = field (codes "id") int32 true none ∷ span_field ∷ [];
  columns = ids.array ∷ spans ∷ [];
  num_rows = 2;
}

abbrev wide_encoder : Encoder
wide_encoder = record {
  schema = wide.schema;
  columns = id_encoder ∷ span_lane.encoder ∷ [];
  field_count = pos 2;
}

abbrev wide_decoder : Decoder
wide_decoder = record {
  schema = wide.schema;
  decoders = reader_at 0 0 ids ∷ reader_at 0 0 span_lane ∷ [];
}

decode_batch-written_rows_example :
    (messages : List Bytes) × (length messages ≡ 2)
    × (written_rows plain wide_encoder wide 2 0 ≡ ok messages)
    × (decode_batch plain wide_decoder messages ≡ ok (wide, wide_decoder))
unfolding fresh_builder zip arrow_type fields
decode_batch-written_rows_example =
    decode_batch-written_rows plain plain-IsFaithful plain-AppendsRanges plain-CarriesRanges 2
      wide_encoder wide (ids ∷ span_lane ∷ []) refl refl (omega arith)
      (
        (Values.Reads.int4, (omega arith, (tt, tt)), refl, refl),
        (
          (
            Values.Reads.range PgType.int4_range Values.Reads.int4,
            spans-IsStorable,
            (refl, (refl, (refl, (refl, (refl, (refl, tt)))))),
            refl,
          ),
          tt,
        ),
      )
      wide.schema wide refl

-- The range [7, infinity).
append-write_range_example :
    (cell : Cell) × IsShort cell
    × (false ≡ is_none cell)
    × (write plain
          (ArrowToPg.range PgType.int4_range ArrowToPg.int4)
          (structs (true ∷ []) (
            five
              (int32s (some (pos 7) ∷ []))
              (int32s (none ∷ []))
              (bools (some true ∷ []))
              (bools (some false ∷ []))
              (bools (some false ∷ []))))
          0
          []
        ≡ ok (written_of cell))
    × (append plain
          (PgToArrow.range PgToArrow.int4)
          (structs [] (five (int32s []) (int32s []) (bools []) (bools []) (bools [])))
          cell
        ≡ ok (
            structs (true ∷ []) (
              five
                (int32s (some (pos 7) ∷ []))
                (int32s (none ∷ []))
                (bools (some true ∷ []))
                (bools (some false ∷ []))
                (bools (some false ∷ [])))))
unfolding write append be_i32 int4_from_sql try_get_i32
append-write_range_example =
    append-write_range plain plain-AppendsRanges plain-CarriesRanges ArrowToPg.int4 PgToArrow.int4
      (true ∷ []) (int32s (some (pos 7) ∷ [])) (int32s (none ∷ [])) (some true ∷ [])
      (some false ∷ []) (some false ∷ []) 0 true true false false (some (be_i32 (pos 7))) none []
      (int32s []) (int32s (some (pos 7) ∷ [])) (int32s []) (int32s (none ∷ [])) [] [] []
      PgType.int4_range (bounds_row (some (be_i32 (pos 7))) none true false tt refl (omega arith))
      refl refl refl refl refl refl refl refl
