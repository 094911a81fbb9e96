-- ===== src/Postgres/Destination.antt =====
-- crates/transferred-postgres/src/destination.rs: a load into a staging table, and the swap.
use mathlib.Core.List.{flatten}
use transferred.Prelude.{
  ℕ, Text, codes, List, [], ◌∷◌, ◌++◌, map, Option, some, none, ok, err, length, join, ltb,
  if◌then◌else◌,
}
use transferred.Core.Error.{
  lit, text, Outcome, TransferredError, in_destination, empty_source, destination_failed,
}
use transferred.Core.Effect.{Effect, pure, lift, mapped, on_error, ◌>>=◌, ◌>>◌}
use transferred.Core.Arrow.{RecordBatch}
use transferred.Core.Report.{RunReport}
use transferred.Core.Transfer.{BatchStream}
use transferred.Postgres.Protocol.{Protocol}
use transferred.Postgres.Client.{Client, Driver}
use transferred.Postgres.Connection.{connect}
use transferred.Postgres.Encoder.{Encoder, encoder_new, declarations}
use transferred.Postgres.CopyIn.{open_copy, write_batches, finish}

abbrev pub staging_suffix : Text
staging_suffix = codes "__transferred_staging"

abbrev pub max_identifier_bytes : ℕ
max_identifier_bytes = 63

pub record PostgresDestination : Type 0 where
  pub dsn : Text
  pub table : Text

unfoldable pub new : Text → Text → PostgresDestination
new dsn table = record { dsn = dsn; table = table }

-- The client is a parameter of the methods.
pub record Loader : Type 0 where
  pub target : Text
  pub staging : Text
  pub target_name : Text

name_too_long : Text → TransferredError
name_too_long staging = destination_failed (
    lit "staging table name `"
    ∷ text staging
    ∷ lit "` exceeds the 63-byte Postgres identifier limit"
    ∷ [])

unfoldable pub staging_name : Text → Outcome Text
unfolding name_too_long
staging_name name =
    let staging = name ++ staging_suffix in
    if ltb max_identifier_bytes (length staging) then err (name_too_long staging) else ok staging

unfoldable pub qualify : (Text → Text) → List Text → Text → Text
qualify escape_identifier schema name =
    join (codes ".") (map escape_identifier (schema ++ name ∷ []))

-- `split_last`: the last element, and those in front of it.
unfoldable pub split_last : List Text → Option (Text × List Text)
split_last [] = none
split_last (x ∷ []) = some (x, [])
split_last (x ∷ y ∷ rest) = elim (split_last (y ∷ rest)) [
  | none ↦ none
  | some (last, front) ↦ some (last, x ∷ front)
]

pub drop_sql : Text → Text
drop_sql staging = codes "drop table if exists " ++ staging

unfoldable pub create_sql : Text → Text → Text
create_sql staging columns =
    codes "drop table if exists "
    ++ (staging ++ (codes "; create table " ++ (staging ++ (codes " (" ++ (columns ++ codes ")")))))

unfoldable pub swap_sql : Loader → Text
swap_sql self =
    codes "drop table if exists "
    ++ (self.target
        ++ (codes "; alter table "
            ++ (self.staging ++ (codes " rename to " ++ (self.target_name ++ codes ";")))))

-- `stream::iter(partitions).flatten()` and its `try_next`: the first batch and what follows it.
unfoldable pub first_batch : BatchStream → Outcome (RecordBatch × BatchStream)
first_batch [] = err empty_source
first_batch (err e ∷ batches) = err e
first_batch (ok batch ∷ batches) = ok (batch, batches)

-- The rest of `Loader::new`, behind the parts of the name.
unfoldable pub loader_of : (Text → Text) → Option (Text × List Text) → Outcome Loader
loader_of escape none = err (destination_failed (lit "target table name is empty" ∷ []))
loader_of escape (some (name, schema)) = elim (staging_name name) [
  | err e ↦ err e
  | ok staging ↦ ok (record {
    target = qualify escape schema name;
    staging = qualify escape schema staging;
    target_name = escape name;
  })
]

module _ {ℓ} {W : Type ℓ} (client : Client W) (P : Protocol) where
  unfoldable pub loader_new : Text → Effect W Loader
  unfolding loader_of
  loader_new table = do
    parts ← mapped in_destination (client.parse_ident table)
    lift (loader_of P.escape_identifier (split_last parts))

  unfoldable pub create_staging : Loader → Text → Effect W (Unit {0})
  create_staging self columns =
      mapped in_destination (client.batch_execute (create_sql self.staging columns))

  -- A COPY that fails drops its sink.
  unfoldable pub copy : Loader → Encoder → BatchStream → Effect W ℕ
  copy self encoder batches = do
    header ← open_copy client self.staging
    on_error client.drop_sink
        (do buf ← write_batches client P encoder batches header; finish client buf)

  unfoldable pub load : Loader → List BatchStream → Effect W ℕ
  unfolding create_staging copy first_batch
  load self partitions = do
    (first, batches) ← lift (first_batch (flatten partitions))
    encoder ← lift (encoder_new P first.schema)
    create_staging self (declarations encoder)
    copy self encoder (ok first ∷ batches)

  unfoldable pub swap : Loader → Effect W (Unit {0})
  swap self = do
    mapped in_destination client.transaction
    on_error client.rollback (mapped in_destination (client.execute_in (swap_sql self)))
    mapped in_destination client.commit

  -- A failure is logged, and answers nothing.
  unfoldable pub drop_staging : Loader → W → W
  unfolding drop_sql
  drop_staging self w = (client.batch_execute (drop_sql self.staging) w).1

  unfoldable pub replace : Loader → List BatchStream → Effect W ℕ
  unfolding load swap drop_staging
  replace self partitions =
      on_error (drop_staging self) (do rows ← load self partitions; swap self; pure rows)

  -- The duration is what `elapsed` says of the world at the start and at the end.
  unfoldable pub write_partitions :
      Driver W → (W → W → ℕ) → PostgresDestination → List BatchStream → Effect W RunReport
  unfolding loader_new replace
  write_partitions driver elapsed self partitions start =
      (do
        mapped in_destination (connect driver self.dsn)
        loader ← loader_new self.table
        rows ← replace loader partitions
        (λ w. (
          ok (record {
            rows = rows;
            bytes_written = 0;
            written_objects = loader.target ∷ [];
            duration = elapsed start w;
          }),
          w,
        )))
        start
