-- ===== src/Postgres/Examples.antt =====
-- The theorems on the Postgres connector at concrete values.
use mathlib.Core.List.{zip, flatten}
use transferred.Postgres.Chunks.{copy_into}
use transferred.Postgres.Samples.{old}
use transferred.Prelude.{
  ◌^◌, ◌≤◌, ◌*◌, ◌+◌, ◌≡◌, ◌≢◌, refl, codes, List, [], ◌∷◌, ◌++◌, some, none, ok, err, map_ok,
  ◌>>=◌, true, false, arith,
}
use transferred.Prelude.Int.{pos, negsuc}
use transferred.Prelude.Bytes.{be_i16, be_i32, try_get_i16, try_get_i32, starts_with}
use transferred.Core.Error.{empty_source}
use transferred.Core.Equality.{fields_discrete}
use transferred.Core.Arrow.{int32, struct, int32s}
use transferred.Postgres.Constants.{copy_header, copy_trailer}
use transferred.Postgres.Protocol.{PgType, Cell}
use transferred.Postgres.PgRange.{fields, type_of}
use transferred.Postgres.Geoarrow.{planar, spherical, is_spherical, epsg, srid}
use transferred.Postgres.PgToArrow
use transferred.Postgres.PgToArrow.{geo, by_name, decoding_of, numeric_of}
use transferred.Prelude.Decimal.{display_nat, display_int}
use transferred.Postgres.Protocol.{other_kind}
use transferred.Postgres.ArrowToPg
use transferred.Postgres.ArrowToPg.{encoding_of}
use transferred.Postgres.CopyOut.{rows, cells_new, take_cell}
use transferred.Postgres.Append.{month_day_nano, append}
use transferred.Postgres.Decoder.{append_cells, append_rows, column_append}
use transferred.Postgres.Write.{pg_interval, write, too_fine}
use transferred.Postgres.Encoder.{
  column_write, write_field, write_fields, write_row, check, encoder_new, field_len, patch,
}
use transferred.Postgres.CopyIn.{finish, send, open_copy, write_batches}
use transferred.Postgres.Connection.{contains, split_verify_full}
use transferred.Postgres.Destination.{
  staging_suffix, staging_name, qualify, loader_of, copy, replace, load, swap, first_batch,
}
use transferred.Postgres.RangeShape.{type_of_iff}
use transferred.Postgres.NumericTypmod.{numeric_typmod, numeric_of-numeric_typmod}
use transferred.Postgres.GeoTags.{epsg-tagged, typmod_of, srid-typmod}
use transferred.Postgres.Intervals.{pg_interval-month_day_nano, month_day_nano-pg_interval}
use transferred.Postgres.StagingName.{staging_name_fits, staging-ne-target}
use transferred.Postgres.SchemaRoundTrip.{decoding_of-Lands}
use transferred.Postgres.Landing.{Lands}
use transferred.Prelude.{eq_text}
use transferred.Postgres.Appending.{behind, write-behind}
use transferred.Postgres.RowRoundTrip.{row_bytes, take_cells, take_cells-write_row}
use transferred.Postgres.Chunks.{committed, batches_bytes, copy-committed}
use transferred.Postgres.FailedLoad.{failed_replace}
use transferred.Postgres.Committed.{Swapped, replace-Swapped}
use transferred.Postgres.CopiedRows.{framed, rows-copy}
use transferred.Postgres.Client.{Driver}
use transferred.Postgres.Connection.{connect}
use transferred.Postgres.Verified.{with_other, connect_verified}
use transferred.Prelude.{◌⊎◌, ◌↔◌, Bool, Text}
use transferred.Postgres.Rewritten.{split_verify_full_either}
use transferred.Postgres.Aligned.{Grows, append-Grows}
use transferred.Postgres.BatchRows.{AllHave, append_rows-AllHave}
use transferred.Postgres.LostCauses.{column_append-same}
use transferred.Postgres.Samples.{
  plain, plain-AppendsRanges, maker, maker-IsCrsMaker, client, accepts, Server, keeps_target, users,
  batch, encoder, id_decoder, IsOld,
}
use transferred.Postgres.SampleWires.{broken, int4_from_sql}

type_of_iff_example :
    (type_of (struct (fields int32)) ≡ ok int32) ↔ (struct (fields int32) ≡ struct (fields int32))
type_of_iff_example = type_of_iff (struct (fields int32)) int32

numeric_of-numeric_typmod_example :
    numeric_of (numeric_typmod 10 (pos 2)) ≡ ok (PgToArrow.numeric 10 2)
numeric_of-numeric_typmod_example = numeric_of-numeric_typmod 10 (pos 2) (omega arith) (omega arith)

epsg-tagged_example :
    (epsg (planar maker (some (pos 4326))) ≡ some (pos 4326))
    × (epsg (spherical maker (some (pos 4326))) ≡ some (pos 4326))
    × (is_spherical (planar maker (some (pos 4326))) ≡ false)
    × (is_spherical (spherical maker (some (pos 4326))) ≡ true)
epsg-tagged_example = epsg-tagged maker maker-IsCrsMaker (pos 4326) (omega arith)

srid-typmod_example : srid (typmod_of (9 * 2 ^ 28 + 4326 * 2 ^ 8 + 4)) ≡ some (pos 4326)
srid-typmod_example = srid-typmod 9 4326 4 (omega arith) (omega arith) (omega arith)

pg_interval-month_day_nano_example :
    (month_day_nano (record { months = pos 1; days = negsuc 1; microseconds = pos 5000000 })
      >>= pg_interval)
    ≡ ok (record { months = pos 1; days = negsuc 1; microseconds = pos 5000000 })
pg_interval-month_day_nano_example =
    pg_interval-month_day_nano
      (record { months = pos 1; days = negsuc 1; microseconds = pos 5000000 })

month_day_nano-pg_interval_example :
    (pg_interval (record { months = pos 1; days = pos 0; nanoseconds = pos 1500 })
      >>= month_day_nano)
    ≡ err (too_fine (pos 1500))
month_day_nano-pg_interval_example =
    month_day_nano-pg_interval (record { months = pos 1; days = pos 0; nanoseconds = pos 1500 })
      (omega arith)

staging_name_fits_example :
    (codes "users__transferred_staging" ≡ codes "users" ++ staging_suffix)
    × (26 ≤ 63)
    × (codes "users__transferred_staging" ≢ codes "users")
unfolding staging_name
staging_name_fits_example =
    staging_name_fits (codes "users") (codes "users__transferred_staging") refl

staging-ne-target_example : users.staging ≢ users.target
unfolding loader_of staging_name qualify
staging-ne-target_example =
    staging-ne-target (λ name. name) (λ a b e. e) (codes "public" ∷ []) (codes "users") users refl

decoding_of-Lands_example :
    Lands (geo (planar maker (some (pos 4326)))) (codes "place") (codes "geometry(Geometry,4326)")
unfolding decoding_of by_name srid display_int display_nat eq_text
decoding_of-Lands_example =
    decoding_of-Lands maker maker-IsCrsMaker (PgType.other_pg other_kind (codes "geometry") 0)
      (pos (4326 * 2 ^ 8)) (codes "place") (geo (planar maker (some (pos 4326)))) refl

write-behind_example :
    write plain ArrowToPg.int4 (int32s (some (pos 7) ∷ [])) 0 ((1 ∷ 2 ∷ []) ++ (3 ∷ []))
    ≡ behind (1 ∷ 2 ∷ []) (write plain ArrowToPg.int4 (int32s (some (pos 7) ∷ [])) 0 (3 ∷ []))
write-behind_example =
    write-behind plain plain-AppendsRanges ArrowToPg.int4 (int32s (some (pos 7) ∷ [])) 0
      (1 ∷ 2 ∷ []) (3 ∷ [])

abbrev seven : List Cell
seven = some (be_i32 (pos 7)) ∷ []

take_cells-write_row_example :
    (write_row plain encoder batch 0 [] ≡ ok ([] ++ row_bytes seven))
    × ((cells_new (row_bytes seven) 1 >>= take_cells 1) ≡ ok (seven, []))
unfolding column_write write be_i32 zip
take_cells-write_row_example =
    take_cells-write_row plain plain-AppendsRanges encoder batch 0 seven [] refl (omega arith)
      (omega arith, refl, tt)

copy-committed_example :
    committed client accepts plain plain-AppendsRanges encoder
      (copy client plain users encoder (ok batch ∷ []) old)
    ≡ map_ok
        (λ bytes. (copy_into users.staging, (copy_header ++ bytes) ++ be_i16 copy_trailer))
        (batches_bytes plain encoder (ok batch ∷ []))
copy-committed_example =
    copy-committed client accepts plain plain-AppendsRanges encoder users (ok batch ∷ []) old

failed_replace_example :
    IsOld (replace client plain users ((ok batch ∷ err empty_source ∷ []) ∷ []) old).1
unfolding replace load first_batch encoder_new copy write_batches check fields_discrete write_row
    write_fields write_field column_write write field_len patch be_i32 zip flatten encoding_of
    open_copy be_i16
failed_replace_example =
    failed_replace client plain users IsOld keeps_target ((ok batch ∷ err empty_source ∷ []) ∷ [])
      old empty_source refl refl

replace-Swapped_example :
    (loaded : Server) × (load client plain users ((ok batch ∷ []) ∷ []) old ≡ (ok 1, loaded))
    × Swapped client plain users loaded (replace client plain users ((ok batch ∷ []) ∷ []) old).1
unfolding replace load first_batch encoder_new copy write_batches check fields_discrete write_row
    write_fields write_field column_write write field_len patch be_i32 zip flatten encoding_of
    open_copy be_i16 swap finish send
replace-Swapped_example = replace-Swapped client plain users ((ok batch ∷ []) ∷ []) old refl

rows-copy_example :
    rows (
      ok (copy_header ++ framed (1, 0 ∷ []))
      ∷ ok (framed (1, 5 ∷ []))
      ∷ ok (be_i16 copy_trailer)
      ∷ [])
    ≡ ok (framed (1, 0 ∷ [])) ∷ ok (framed (1, 5 ∷ [])) ∷ []
rows-copy_example = rows-copy ((1, 0 ∷ []) ∷ (1, 5 ∷ []) ∷ []) (omega arith, (omega arith, tt))

append-Grows_example :
    Grows 1 (append plain PgToArrow.int4 (int32s (none ∷ [])) (some (be_i32 (pos 7))))
append-Grows_example =
    append-Grows plain PgToArrow.int4 (int32s (none ∷ [])) 1 (some (be_i32 (pos 7))) refl

append_rows-AllHave_example :
    AllHave
      (0 + 1)
      (record { name = codes "id"; decoding = PgToArrow.int4; builder = int32s (none ∷ []) } ∷ [])
unfolding append_rows append_cells column_append append cells_new take_cell try_get_i16 try_get_i32
    int4_from_sql
append_rows-AllHave_example =
    append_rows-AllHave plain (id_decoder ∷ []) 0 ((0 ∷ 1 ∷ 255 ∷ 255 ∷ 255 ∷ 255 ∷ []) ∷ [])
      (refl, tt) refl

column_append-same_example :
    column_append plain id_decoder (some []) ≡ column_append plain id_decoder (some (1 ∷ []))
unfolding append int4_from_sql try_get_i32
column_append-same_example =
    column_append-same plain id_decoder (some []) (some (1 ∷ [])) broken broken refl refl

-- A driver whose connectors say whether they verify, over a world that holds the last one used.
abbrev pub driver : Driver Bool
driver = record {
  Config = Text;
  Connector = Bool;
  parse_config = λ dsn. ok dsn;
  encrypting_connector = false;
  verifying_connector = λ w. (ok true, w);
  connect_with = λ config connector w. (ok tt, connector);
}

connect_verified_example :
    connect (with_other driver true) (codes "sslmode=verify-full") false
    ≡ connect driver (codes "sslmode=verify-full") false
unfolding contains starts_with
connect_verified_example = connect_verified driver true (codes "sslmode=verify-full") false refl

split_verify_full_either_example :
    let dsn = codes "sslmode=verify-full" in
    ((contains dsn dsn ≡ false) × (split_verify_full dsn ≡ (dsn, false)))
    ⊎ ((contains dsn dsn ≡ true)
        × ((split_verify_full dsn).1 ≡ true)
        × (contains (split_verify_full dsn).0 dsn ≡ false))
split_verify_full_either_example = split_verify_full_either (codes "sslmode=verify-full")
