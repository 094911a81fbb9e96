-- ===== src/Postgres/Appending.antt =====
-- What a value does to the buffer that it is written to, for `Encoding::write` in
-- destination/arrow_to_pg.rs.
use transferred.Prelude.{
  ℕ, ◌≡◌, refl, ap, List, ◌++◌, append_assoc, [], Result, ok, err, map_ok, map_err, ◌>>=◌, arith,
  Option, Text, Bool, true, false,
}
use transferred.Prelude.Bytes.{Bytes}
use transferred.Prelude.Int.{pos}
use transferred.Core.Error.{AnyError, Outcome, in_destination}
use transferred.Core.Arrow.{Array, Arrays, no_arrays, array_then}
use transferred.Postgres.Protocol.{Protocol, Wire, IsNull, not_null, RangeBound, BoundWriter}
use transferred.Postgres.ArrowToPg.{
  Encoding, bool, int2, int4, int8, float4, float8, text, json, bytea, uuid, date, timestamp,
  timestamptz, interval, numeric, geo, range,
}
use transferred.Postgres.Write.{
  write, write_range, write_bounds, put, unless_null, put_text, bound_of, boxed, pg_uuid, pg_date,
  pg_timestamp, pg_interval, pg_numeric, zero_interval,
}
use transferred.Postgres.Casts.{value, as_bools}

-- The same answer behind a prefix.
abbrev pub behind {ℓ κ} :
    {A : Type ℓ} {E : Type κ} → Bytes → Result (A × Bytes) E → Result (A × Bytes) E
behind pre r = map_ok (λ p. (p.0, pre ++ p.1)) r

abbrev pub IsAppending : BoundWriter → Type 0
IsAppending w = (pre out : Bytes) → w (pre ++ out) ≡ behind pre (w out)

-- What `postgres-protocol` documents of its two range writers: they append to the buffer.
pub record AppendsRanges (P : Protocol) : Type 0 where
  pub empty_range :
      (pre buf : Bytes) → P.empty_range_to_sql (pre ++ buf) ≡ pre ++ P.empty_range_to_sql buf
  pub range :
      (lo hi : BoundWriter)
      → IsAppending lo
      → IsAppending hi
      → (pre buf : Bytes)
      → P.range_to_sql lo hi (pre ++ buf) ≡ map_ok (λ out. pre ++ out) (P.range_to_sql lo hi buf)

bind-behind :
    {A B E : Type 0} (pre : Bytes) (m : Result A E) (f g : A → Result (B × Bytes) E)
    → ((a : A) → f a ≡ behind pre (g a))
    → (m >>= f) ≡ behind pre (m >>= g)
bind-behind pre (ok a) f g h = h a
bind-behind pre (err e) f g h = refl

-- The answer of a bound, picked from what was written.
picked-behind :
    (pre : Bytes) (s : Outcome (IsNull × Bytes)) (pick : IsNull → RangeBound IsNull)
    → (map_err boxed (behind pre s) >>= λ p. ok (pick p.0, p.1))
      ≡ behind pre (map_err boxed s >>= λ p. ok (pick p.0, p.1))
picked-behind pre (ok p) pick = refl
picked-behind pre (err e) pick = refl

bound_of-behind :
    (pre : Bytes) (s : Outcome (IsNull × Bytes)) (flags : Array) (row : ℕ)
    → bound_of (behind pre s) flags row ≡ behind pre (bound_of s flags row)
unfolding bound_of
bound_of-behind pre s flags row = bind-behind pre _ _ _ (λ xs. picked-behind pre s _)

module _ (P : Protocol) where
  put-behind :
      {A : Type 0} (wire : Wire A) (v : A) (pre buf : Bytes)
      → put P wire v (pre ++ buf) ≡ behind pre (put P wire v buf)
  unfolding put
  put-behind wire v pre buf =
      bind-behind pre (map_err _ (wire.to_sql v)) _ _
        (λ p. ap (λ out. ok (p.0, out)) (append_assoc pre buf p.1))

  converted-behind :
      {A B : Type 0} (m : Outcome A) (f : A → B) (wire : Wire B) (pre buf : Bytes)
      → (m >>= λ v. put P wire (f v) (pre ++ buf)) ≡ behind pre (m >>= λ v. put P wire (f v) buf)
  converted-behind m f wire pre buf = bind-behind pre m _ _ (λ v. put-behind wire (f v) pre buf)

  put_text-behind :
      (xs : List (Option Text)) (row : ℕ) (pre buf : Bytes)
      → put_text P xs row (pre ++ buf) ≡ behind pre (put_text P xs row buf)
  unfolding put_text
  put_text-behind xs row pre buf = ap (λ out. ok (not_null, out)) (append_assoc pre buf _)

  unless_null-behind :
      (a : Array) (row : ℕ) (pre buf : Bytes) (r s : Outcome (IsNull × Bytes))
      → r ≡ behind pre s
      → unless_null P a row (pre ++ buf) r ≡ behind pre (unless_null P a row buf s)
  unfolding unless_null
  unless_null-behind a row pre buf r s h = ground arith

  finish-behind :
      (pre : Bytes) (r : Result Bytes AnyError)
      → (map_err in_destination (map_ok (λ out. pre ++ out) r) >>= λ out. ok (not_null, out))
        ≡ behind pre (map_err in_destination r >>= λ out. ok (not_null, out))
  finish-behind pre (ok out) = refl
  finish-behind pre (err e) = refl

  module _ (laws : AppendsRanges P) where
    module _ (element : Array → ℕ → Bytes → Outcome (IsNull × Bytes))
        (h : (a : Array) (row : ℕ) (pre buf : Bytes)
          → element a row (pre ++ buf) ≡ behind pre (element a row buf)) where
      bound-IsAppending :
          (values flags : Array) (row : ℕ)
          → IsAppending (λ out. bound_of (element values row out) flags row)
      bound-IsAppending values flags row pre out =
          rw (h values row pre out) (bound_of-behind pre (element values row out) flags row)

      write_bounds-behind :
          (no_values : Bool) (lo hi li ui : Array) (row : ℕ) (pre buf : Bytes)
          → write_bounds P element no_values lo hi li ui row (pre ++ buf)
            ≡ behind pre (write_bounds P element no_values lo hi li ui row buf)
      unfolding write_bounds
      write_bounds-behind true lo hi li ui row pre buf =
          ap (λ out. ok (not_null, out)) (laws.empty_range pre buf)
      write_bounds-behind false lo hi li ui row pre buf =
          rw (laws.range _ _ (bound-IsAppending lo li row) (bound-IsAppending hi ui row) pre buf)
            (finish-behind pre _)

      write_range-behind :
          (children : Arrays) (row : ℕ) (pre buf : Bytes)
          → write_range P element children row (pre ++ buf)
            ≡ behind pre (write_range P element children row buf)
      unfolding write_range
      write_range-behind
            (array_then lo
              (array_then hi (array_then li (array_then ui (array_then em no_arrays)))))
            row pre buf =
          bind-behind pre (as_bools em) _ _
            (λ flags. write_bounds-behind (value false flags row) lo hi li ui row pre buf)
      write_range-behind _ row pre buf = refl

    -- With range writers that append, whatever the buffer holds stays in front of what a value
    -- writes, and changes neither the value's bytes nor the answer.
    pub write-behind :
        (e : Encoding) (a : Array) (row : ℕ) (pre buf : Bytes)
        → write P e a row (pre ++ buf) ≡ behind pre (write P e a row buf)
    unfolding write
    write-behind bool a row pre buf =
        unless_null-behind a row pre buf _ _
          (bind-behind pre _ _ _ λ xs. put-behind P.bool_wire _ pre buf)
    write-behind (range over element) a row pre buf = unless_null-behind a row pre buf _ _ (
        bind-behind pre _ _ _ λ children.
          write_range-behind (write P element) (write-behind element) children row pre buf)
    write-behind int2 a row pre buf =
        unless_null-behind a row pre buf _ _
          (bind-behind pre _ _ _ λ xs. put-behind P.int2_wire _ pre buf)
    write-behind int4 a row pre buf =
        unless_null-behind a row pre buf _ _
          (bind-behind pre _ _ _ λ xs. put-behind P.int4_wire _ pre buf)
    write-behind int8 a row pre buf =
        unless_null-behind a row pre buf _ _
          (bind-behind pre _ _ _ λ xs. put-behind P.int8_wire _ pre buf)
    write-behind float4 a row pre buf =
        unless_null-behind a row pre buf _ _
          (bind-behind pre _ _ _ λ xs. put-behind P.float4_wire _ pre buf)
    write-behind float8 a row pre buf =
        unless_null-behind a row pre buf _ _
          (bind-behind pre _ _ _ λ xs. put-behind P.float8_wire _ pre buf)
    write-behind bytea a row pre buf =
        unless_null-behind a row pre buf _ _
          (bind-behind pre _ _ _ λ xs. put-behind P.bytea_wire _ pre buf)
    write-behind (geo tag) a row pre buf =
        unless_null-behind a row pre buf _ _
          (bind-behind pre _ _ _ λ xs. put-behind P.bytea_wire _ pre buf)
    write-behind text a row pre buf =
        unless_null-behind a row pre buf _ _
          (bind-behind pre _ _ _ λ xs. put_text-behind xs row pre buf)
    write-behind json a row pre buf =
        unless_null-behind a row pre buf _ _
          (bind-behind pre _ _ _ λ xs. put_text-behind xs row pre buf)
    write-behind uuid a row pre buf = unless_null-behind a row pre buf _ _ (
        bind-behind pre _ _ _
          λ xs. converted-behind (pg_uuid P (value [] xs row)) (λ v. v) P.uuid_wire pre buf)
    write-behind date a row pre buf = unless_null-behind a row pre buf _ _ (
        bind-behind pre _ _ _
          λ xs. converted-behind (pg_date P (value (pos 0) xs row)) (λ v. v) P.date_wire pre buf)
    write-behind timestamp a row pre buf = unless_null-behind a row pre buf _ _ (
        bind-behind pre _ _ _ λ xs.
          converted-behind (pg_timestamp P (value (pos 0) xs row)) P.naive_utc P.timestamp_wire pre
            buf)
    write-behind timestamptz a row pre buf = unless_null-behind a row pre buf _ _ (
        bind-behind pre _ _ _ λ xs.
          converted-behind (pg_timestamp P (value (pos 0) xs row)) (λ v. v) P.timestamptz_wire pre
            buf)
    write-behind interval a row pre buf = unless_null-behind a row pre buf _ _ (
        bind-behind pre _ _ _ λ xs.
          converted-behind (pg_interval (value (zero_interval P) xs row)) (λ v. v) P.interval_wire
            pre buf)
    write-behind (numeric precision scale) a row pre buf = unless_null-behind a row pre buf _ _ (
        bind-behind pre _ _ _ λ xs.
          converted-behind (pg_numeric P (value (pos 0) xs row) scale) (λ v. v) P.numeric_wire pre
            buf)
