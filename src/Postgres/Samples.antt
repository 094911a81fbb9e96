-- ===== src/Postgres/Samples.antt =====
-- A small instance of what the Postgres connector takes as parameters, for the examples.
use transferred.Prelude.{
  ℕ, ◌≡◌, refl, Text, codes, List, [], ◌∷◌, ◌++◌, append_assoc, some, none, Result, ok, err, true,
}
use transferred.Prelude.Int.{ℤ, pos}
use transferred.Prelude.Bytes.{Bytes}
use transferred.Core.Error.{AnyError}
use transferred.Core.Arrow.{
  boolean, struct, Fields, no_fields, field_then, bools, structs, Arrays, no_arrays, array_then,
  ArrowType, ArrowField, field, int32, Array, int32s, other_array, array_len, RecordBatch,
  authority_code, string,
}
use transferred.Postgres.SampleRanges.{range_to_sql, range_from_sql, range_to_sql-append}
use transferred.Postgres.SampleWires.{
  int4_wire, bool_wire, int_wire, float_wire, bytes_wire, interval_wire, numeric_wire, in_i64,
  decimal_of,
}
use transferred.Postgres.Protocol.{Protocol}
use transferred.Postgres.Geoarrow.{CrsMaker}
use transferred.Postgres.GeoTags.{IsCrsMaker}
use transferred.Postgres.Client.{Client}
use transferred.Postgres.Appending.{AppendsRanges}
use transferred.Postgres.ArrowToPg
use transferred.Postgres.PgToArrow
use transferred.Postgres.Encoder.{ColumnEncoder, Encoder}
use transferred.Postgres.Decoder.{ColumnDecoder}
use transferred.Postgres.Destination.{Loader}
use transferred.Postgres.Chunks.{copy_into, Accepts, Sent, plus}
use transferred.Postgres.FailedLoad.{KeepsTarget}

abbrev mutual
  builder_of : ArrowType → Array
  builder_of int32 = int32s []
  builder_of boolean = bools []
  builder_of (struct fields) = structs [] (builders_of fields)
  builder_of t = other_array 0

  builders_of : Fields → Arrays
  builders_of no_fields = no_arrays
  builders_of (field_then (field name t nullable tag) rest) =
      array_then (builder_of t) (builders_of rest)

abbrev rows_of : List Array → ℕ
rows_of [] = 0
rows_of (column ∷ columns) = array_len column

abbrev pub plain : Protocol
plain = record {
  NaiveDate = ℤ;
  NaiveDateTime = ℤ;
  DateTime = ℤ;
  Decimal = ℤ × ℕ;
  Uuid = Bytes;
  bool_wire = bool_wire;
  int2_wire = int_wire;
  int4_wire = int4_wire;
  int8_wire = int_wire;
  float4_wire = float_wire;
  float8_wire = float_wire;
  bytea_wire = bytes_wire;
  uuid_wire = bytes_wire;
  date_wire = int_wire;
  timestamp_wire = int_wire;
  timestamptz_wire = int_wire;
  interval_wire = interval_wire;
  numeric_wire = numeric_wire;
  from_naive_date = λ n. n;
  to_naive_date_opt = in_i64;
  and_utc = λ n. n;
  naive_utc = λ n. n;
  timestamp_micros = λ n. n;
  from_timestamp_micros = in_i64;
  uuid_from_slice = λ bytes. ok bytes;
  into_bytes = λ bytes. bytes;
  rescale = λ d scale. d;
  decimal_scale = λ d. d.1;
  mantissa = λ d. d.0;
  try_from_i128_with_scale = decimal_of;
  range_from_sql = range_from_sql;
  range_to_sql = range_to_sql;
  empty_range_to_sql = λ buf. buf ++ 1 ∷ [];
  escape_identifier = λ name. name;
  make_builder = builder_of;
  try_new_batch = λ schema columns.
      ok (record { schema = schema; columns = columns; num_rows = rows_of columns });
}

pub plain-AppendsRanges : AppendsRanges plain
plain-AppendsRanges = record {
  empty_range = λ pre buf. append_assoc pre buf (1 ∷ []);
  range = λ lo hi hlo hhi pre buf. range_to_sql-append lo hi pre buf;
}

abbrev pub maker : CrsMaker
maker = record {
  default = record { crs_value = none; crs_type = none };
  from_authority_code =
      λ code. record { crs_value = some (string code); crs_type = some authority_code };
}

pub maker-IsCrsMaker : IsCrsMaker maker
maker-IsCrsMaker = record { no_type = refl; code_type = λ s. refl; code_value = λ s. refl }

-- A server: the last COPY with what it has brought, and the table as others see it.
abbrev pub Server : Type 0
Server = Sent × Text

abbrev pub old : Server
old = (([], []), codes "old")

abbrev pub client : Client Server
client = record {
  batch_execute = λ sql w. (ok tt, w);
  parse_ident = λ name w. (ok (name ∷ []), w);
  regclass = λ name w. (ok name, w);
  prepare = λ sql w. (ok [], w);
  copy_out = λ sql w. (ok [], w);
  copy_in = λ sql w. (ok tt, ((sql, []), w.1));
  send = λ bytes w. (ok tt, (plus w.0 bytes, w.1));
  finish = λ w. (ok 1, w);
  drop_sink = λ w. ((w.0.0, []), w.1);
  transaction = λ w. (ok tt, w);
  execute_in = λ sql w. (ok tt, w);
  commit = λ w. (ok tt, (w.0, codes "new"));
  rollback = λ w. w;
}

abbrev pub accepts : Accepts client
accepts = record {
  sent = λ w. w.0;
  opened = λ query w. ((query, []), w.1);
  after = λ bytes w. (plus w.0 bytes, w.1);
  count = λ w. 1;
  closed = λ w. w;
  copy_in_lem = λ query w. refl;
  sent-opened = λ query w. refl;
  send_lem = λ bytes w. refl;
  sent-after = λ bytes w. refl;
  finish_lem = λ w. refl;
  sent-closed = λ w. refl;
}

abbrev pub users : Loader
users = record {
  target = codes "public.users";
  staging = codes "public.users__transferred_staging";
  target_name = codes "users";
}

abbrev pub IsOld : Server → Type 0
IsOld w = w.1 ≡ codes "old"

commit_succeeds :
    {A B : Type 0} {a : A} {e : AnyError} → ◌≡◌ {A = Result A AnyError} (ok a) (err e) → B
commit_succeeds h = absurd (cc h)

pub keeps_target : KeepsTarget client plain users IsOld
keeps_target = record {
  Loads = λ w. IsOld w × (w.0.0 ≡ copy_into users.staging);
  kept = λ w loads. loads.0;
  create = λ schema encoder w made q. q;
  drop = λ w q. q;
  copy_in = λ w q. (q, refl);
  send = λ bytes w q. q;
  finish = λ w q. q;
  drop_sink = λ w q. q;
  transaction = λ w q. q;
  execute_in = λ w q. q;
  rollback = λ w q. q;
  commit = λ w e failed q. commit_succeeds failed;
}

abbrev pub schema : List ArrowField
schema = field (codes "id") int32 true none ∷ []

abbrev pub batch : RecordBatch
batch = record { schema = schema; columns = int32s (some (pos 7) ∷ none ∷ []) ∷ []; num_rows = 2 }

abbrev pub id_encoder : ColumnEncoder
id_encoder = record { name = codes "id"; encoding = ArrowToPg.int4 }

abbrev pub encoder : Encoder
encoder = record { schema = schema; columns = id_encoder ∷ []; field_count = pos 1 }

abbrev pub id_decoder : ColumnDecoder
id_decoder = record { name = codes "id"; decoding = PgToArrow.int4; builder = int32s [] }
