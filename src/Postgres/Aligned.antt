-- ===== src/Postgres/Aligned.antt =====
-- The lengths of builders, for `Decoding::append` and `append_range` in source/pg_to_arrow.rs.
use transferred.Prelude.{
  ℕ, ◌+◌, ◌≡◌, ap, ◌∙◌, List, [], ◌∷◌, ◌++◌, Result, ok, err, map_err, traverse, ◌>>=◌, Bool,
  Option, length, length-append,
}
use transferred.Prelude.Bytes.{Bytes}
use transferred.Core.Error.{AnyError, Outcome, in_source, TransferredError}
use transferred.Core.Arrow.{
  Array, bools, int16s, int32s, int64s, float32s, float64s, strings, binaries, fixed_binaries,
  date32s, timestamps, intervals, decimals, structs, array_len, Arrays, no_arrays, array_then,
}
use transferred.Postgres.Protocol.{Protocol, Cell, Range}
use transferred.Postgres.PgToArrow.{
  Decoding, bool, int2, int4, int8, float4, float8, text, json, jsonb, bytea, uuid, date, timestamp,
  timestamptz, interval, numeric, geo, opaque, range,
}
use transferred.Postgres.Append.{
  decode, month_day_nano, decimal_units, append, append_text, append_tag, append_children,
  append_range,
}

abbrev mutual
  -- `n` rows, in the fields of a struct too.
  pub IsAligned : ℕ → Array → Type 0
  IsAligned n (structs valid children) = (length valid ≡ n) × AllAligned n children
  IsAligned n builder = array_len builder ≡ n

  pub AllAligned : ℕ → Arrays → Type 0
  AllAligned n no_arrays = Unit
  AllAligned n (array_then builder rest) = IsAligned n builder × AllAligned n rest

-- One row more, where the row could be appended.
pub data Grows (n : ℕ) : Outcome Array → Type 0 where
  grown : (builder : Array) → IsAligned (n + 1) builder → Grows n (ok builder)
  failed : (e : TransferredError) → Grows n (err e)

data AllGrow (n : ℕ) : Outcome Arrays → Type 0 where
  all_grown : (builders : Arrays) → AllAligned (n + 1) builders → AllGrow n (ok builders)
  none_grown : (e : TransferredError) → AllGrow n (err e)

one_more :
    {A : Type 0} (xs : List A) (x : A) {n : ℕ} → length xs ≡ n → length (xs ++ x ∷ []) ≡ n + 1
one_more xs x h = length-append xs (x ∷ []) ∙ ap (λ k. k + 1) h

decoded-Grows :
    {A : Type 0} {n : ℕ} (m : Outcome A) (f : A → Outcome Array)
    → ((a : A) → Grows n (f a))
    → Grows n (m >>= f)
decoded-Grows (ok a) f h = h a
decoded-Grows (err e) f h = failed e

appended-AllGrow :
    {n : ℕ} (m : Outcome Array) (f : Array → Outcome Arrays)
    → Grows n m
    → ((a : Array) → IsAligned (n + 1) a → AllGrow n (f a))
    → AllGrow n (m >>= f)
appended-AllGrow m f (grown a g) h = h a g
appended-AllGrow m f (failed e) h = none_grown e

children-Grows :
    {n : ℕ} (m : Outcome Arrays) (f : Arrays → Outcome Array)
    → AllGrow n m
    → ((a : Arrays) → AllAligned (n + 1) a → Grows n (f a))
    → Grows n (m >>= f)
children-Grows m f (all_grown a g) h = h a g
children-Grows m f (none_grown e) h = failed e

append_tag-Grows :
    (flag : Bool) (builder : Array) (n : ℕ)
    → IsAligned n builder
    → Grows n (append_tag flag builder)
unfolding append_tag
append_tag-Grows flag (bools xs) n h = grown _ (one_more xs _ h)
append_tag-Grows flag _ n h = failed _

module _ (element : Array → Cell → Outcome Array)
    (grows : (builder : Array) (n : ℕ) (cell : Cell)
      → IsAligned n builder
      → Grows n (element builder cell)) where
  append_children-AllGrow :
      (parsed : Option Range) (children : Arrays) (n : ℕ)
      → AllAligned n children
      → AllGrow n (append_children element parsed children)
  unfolding append_children
  append_children-AllGrow parsed
        (array_then lower (
          array_then upper
            (array_then lower_inc (array_then upper_inc (array_then empty_flag no_arrays)))))
        n (l, (u, (li, (ui, (e, _))))) =
      appended-AllGrow (element lower _) _ (grows lower n _ l) λ l' la.
        appended-AllGrow (element upper _) _ (grows upper n _ u) λ u' ua.
          appended-AllGrow (append_tag _ lower_inc) _ (append_tag-Grows _ lower_inc n li) λ li' lia.
            appended-AllGrow (append_tag _ upper_inc) _ (append_tag-Grows _ upper_inc n ui)
              λ ui' uia.
                appended-AllGrow (append_tag _ empty_flag) _ (append_tag-Grows _ empty_flag n e)
                  λ e' ea. all_grown _ (la, (ua, (lia, (uia, (ea, tt)))))
  append_children-AllGrow parsed _ n h = none_grown _

  append_range-Grows :
      (parse : Bytes → Result Range AnyError) (builder : Array) (n : ℕ) (cell : Cell)
      → IsAligned n builder
      → Grows n (append_range element parse builder cell)
  unfolding append_range
  append_range-Grows parse (structs valid children) n cell (h, hs) =
      decoded-Grows (map_err in_source (traverse parse cell)) _ λ parsed.
        children-Grows (append_children element parsed children) _
          (append_children-AllGrow parsed children n hs)
          λ children' aligned. grown _ (one_more valid _ h, aligned)
  append_range-Grows parse _ n cell h = failed _

module _ (P : Protocol) where
  append_text-Grows :
      (builder : Array) (n : ℕ) (v : _) → IsAligned n builder → Grows n (append_text P builder v)
  unfolding append_text
  append_text-Grows (strings xs) n v h = grown _ (one_more xs _ h)
  append_text-Grows _ n v h = failed _

  -- A cell that is appended to an aligned builder makes it one row longer, whatever the decoding,
  -- and the fields of a range's struct with it.
  pub append-Grows :
      (decoding : Decoding) (builder : Array) (n : ℕ) (cell : Cell)
      → IsAligned n builder
      → Grows n (append P decoding builder cell)
  unfolding append
  append-Grows bool (bools xs) n cell h = decoded-Grows _ _ λ v. grown _ (one_more xs _ h)
  append-Grows int2 (int16s xs) n cell h = decoded-Grows _ _ λ v. grown _ (one_more xs _ h)
  append-Grows int4 (int32s xs) n cell h = decoded-Grows _ _ λ v. grown _ (one_more xs _ h)
  append-Grows int8 (int64s xs) n cell h = decoded-Grows _ _ λ v. grown _ (one_more xs _ h)
  append-Grows float4 (float32s xs) n cell h = decoded-Grows _ _ λ v. grown _ (one_more xs _ h)
  append-Grows float8 (float64s xs) n cell h = decoded-Grows _ _ λ v. grown _ (one_more xs _ h)
  append-Grows text (strings xs) n cell h = decoded-Grows _ _ λ v. grown _ (one_more xs _ h)
  append-Grows json (strings xs) n cell h = decoded-Grows _ _ λ v. grown _ (one_more xs _ h)
  append-Grows jsonb builder n cell h = decoded-Grows _ _ λ v. append_text-Grows builder n v h
  append-Grows bytea (binaries xs) n cell h = grown _ (one_more xs _ h)
  append-Grows (geo tag) (binaries xs) n cell h = grown _ (one_more xs _ h)
  append-Grows (opaque name vendor) (binaries xs) n cell h = grown _ (one_more xs _ h)
  append-Grows uuid (fixed_binaries xs) n cell h = decoded-Grows _ _ λ v. grown _ (one_more xs _ h)
  append-Grows date (date32s xs) n cell h = decoded-Grows _ _ λ v. grown _ (one_more xs _ h)
  append-Grows timestamp (timestamps xs) n cell h = decoded-Grows _ _ λ v. grown _ (one_more xs _ h)
  append-Grows timestamptz (timestamps xs) n cell h =
      decoded-Grows _ _ λ v. grown _ (one_more xs _ h)
  append-Grows interval (intervals xs) n cell h =
      decoded-Grows (decode P P.interval_wire cell) _
        λ v. decoded-Grows (traverse month_day_nano v) _ λ nanos. grown _ (one_more xs _ h)
  append-Grows (numeric precision scale) (decimals xs) n cell h =
      decoded-Grows (decode P P.numeric_wire cell) _ λ v.
        decoded-Grows (traverse (λ d. decimal_units P d scale) v) _
          λ units. grown _ (one_more xs _ h)
  append-Grows (range bounds) builder n cell h =
      append_range-Grows (append P bounds) (append-Grows bounds) P.range_from_sql builder n cell h
  append-Grows _ builder n cell h = failed _
