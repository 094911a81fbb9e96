-- ===== src/Postgres/RowAppending.antt =====
-- What a field and a row do to the buffer that they are written to, for `write_field` and `write_row`
-- in destination/arrow_to_pg.rs.
use mathlib.Core.List.{zip}
use transferred.Prelude.{
  append_assoc, List, ◌∷◌, ℕ, ◌≡◌, refl, ap, ◌∙◌, [], ◌++◌, append-nil, Result, ok, err, map_ok,
  map_err, ◌>>=◌, arith, length, length-append,
}
use transferred.Prelude.Int.{ℤ, pos}
use transferred.Prelude.Bytes.{Bytes, be_i16, be_i32}
use transferred.Core.Error.{Outcome}
use transferred.Core.Arrow.{Array, RecordBatch}
use transferred.Postgres.Protocol.{Protocol, IsNull, null, not_null}
use transferred.Postgres.Encoder.{
  Encoder, write_fields, write_row, ColumnEncoder, column_write, write_field, patch, field_len,
}
use transferred.Postgres.Write.{write}
use transferred.Postgres.Appending.{AppendsRanges, write-behind, behind}
use transferred.Postgres.RowRoundTrip.{patched}

-- What a field is, from what its column wrote alone.
abbrev framed : IsNull × Bytes → Outcome Bytes
framed (n, out) = field_len n (length out) 0 >>= λ len. ok (be_i32 len ++ out)

field_len-behind :
    (n : IsNull) (hole out : Bytes)
    → field_len n (length (hole ++ out)) (length hole) ≡ field_len n (length out) 0
unfolding field_len
field_len-behind null hole out = refl
field_len-behind not_null hole out = rw (length-append hole out) (ground arith)

map_err-behind :
    {A E F : Type 0} (f : E → F) (pre : Bytes) (r : Result (A × Bytes) E)
    → map_err f (behind pre r) ≡ behind pre (map_err f r)
map_err-behind f pre (ok p) = refl
map_err-behind f pre (err e) = refl

bind_len :
    (buf four out : Bytes) (r : Outcome ℤ)
    → (r >>= λ len. patch (length buf) (length (buf ++ four)) (be_i32 len) ((buf ++ four) ++ out))
      ≡ map_ok (λ tail. buf ++ tail) (r >>= λ len. ok (be_i32 len ++ out))
bind_len buf four out (ok len) = patched buf four (be_i32 len) out
bind_len buf four out (err e) = refl

module _ (P : Protocol) (laws : AppendsRanges P) where
  column_write-hole :
      (self : ColumnEncoder) (a : Array) (row : ℕ) (hole : Bytes)
      → column_write P self a row hole ≡ behind hole (column_write P self a row [])
  unfolding column_write
  column_write-hole self a row hole =
      ap (map_err _) (rw append-nil at (write-behind P laws self.encoding a row hole []))
      ∙ map_err-behind _ hole (write P self.encoding a row [])

  write_field-framed :
      (self : ColumnEncoder) (a : Array) (row : ℕ) (buf : Bytes)
      → write_field P self a row buf
        ≡ map_ok (λ frame. buf ++ frame) (column_write P self a row [] >>= framed)
  unfolding write_field
  write_field-framed self a row buf =
      rw (column_write-hole self a row (buf ++ be_i32 (pos 0))) (go (column_write P self a row []))
    where
      hole : Bytes
      hole = buf ++ be_i32 (pos 0)

      go :
          (r : Outcome (IsNull × Bytes))
          → (behind hole r >>= λ p. field_len p.0 (length p.1) (length hole) >>= λ len.
              patch (length buf) (length hole) (be_i32 len) p.1)
            ≡ map_ok (λ frame. buf ++ frame) (r >>= framed)
      go (err e) = refl
      go (ok (n, out)) =
          rw (field_len-behind n (buf ++ be_i32 (pos 0)) out)
            (bind_len buf (be_i32 (pos 0)) out (field_len n (length out) 0))

  pub write_field-append :
      (self : ColumnEncoder) (a : Array) (row : ℕ) (pre buf : Bytes)
      → write_field P self a row (pre ++ buf)
        ≡ map_ok (λ out. pre ++ out) (write_field P self a row buf)
  write_field-append self a row pre buf =
      rw (write_field-framed self a row (pre ++ buf), write_field-framed self a row buf)
        (go (column_write P self a row [] >>= framed))
    where
      go :
          (r : Outcome Bytes)
          → map_ok (λ frame. (pre ++ buf) ++ frame) r
            ≡ map_ok (λ out. pre ++ out) (map_ok (λ frame. buf ++ frame) r)
      go (ok frame) = ap ok (append_assoc pre buf frame)
      go (err e) = refl

  then-append :
      (pre : Bytes) (r : Outcome Bytes) (f : Bytes → Outcome Bytes)
      → ((out : Bytes) → f (pre ++ out) ≡ map_ok (λ o. pre ++ o) (f out))
      → (map_ok (λ out. pre ++ out) r >>= f) ≡ map_ok (λ out. pre ++ out) (r >>= f)
  then-append pre (ok out) f h = h out
  then-append pre (err e) f h = refl

  write_fields-append :
      (columns : List (ColumnEncoder × Array)) (row : ℕ) (pre buf : Bytes)
      → write_fields P columns row (pre ++ buf)
        ≡ map_ok (λ out. pre ++ out) (write_fields P columns row buf)
  unfolding write_fields
  write_fields-append [] row pre buf = refl
  write_fields-append ((column, a) ∷ rest) row pre buf =
      rw (write_field-append column a row pre buf) (
        then-append pre (write_field P column a row buf) (write_fields P rest row)
          (write_fields-append rest row pre))

  -- With range writers that append, a row is written behind what the buffer holds, and that changes
  -- neither the row nor whether it can be written.
  pub write_row-append :
      (self : Encoder) (batch : RecordBatch) (row : ℕ) (pre buf : Bytes)
      → write_row P self batch row (pre ++ buf)
        ≡ map_ok (λ out. pre ++ out) (write_row P self batch row buf)
  unfolding write_row
  write_row-append self batch row pre buf = rw (append_assoc pre buf (be_i16 self.field_count)) (
      write_fields-append (zip self.columns batch.columns) row pre (buf ++ be_i16 self.field_count))
