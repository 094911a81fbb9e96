-- ===== src/Postgres/CopyOut.antt =====
-- crates/transferred-postgres/src/source/copy_out.rs: rows and cells of a binary COPY.
use transferred.Prelude.{
  ℕ, List, [], ◌∷◌, Option, some, none, Result, ok, err, Bool, length, take, drop, false, leb,
  ok_or, ◌>>=◌, if◌then◌else◌, not, ◌==◌,
}
use transferred.Prelude.Int.{ℤ, pos, negsuc, eq_ℤ}
use transferred.Prelude.Bytes.{Bytes, be_i16, try_get_i16, try_get_i32, starts_with}
use transferred.Core.Error.{
  AnyError, root, lit, int, nat, foreign, TransferredError, in_source, source_failed, Outcome,
}
use transferred.Postgres.Constants.{copy_header, copy_trailer, null_field}
use transferred.Postgres.Protocol.{Cell}

-- `message.advance(COPY_HEADER.len())` behind the test of `starts_with`.
unfoldable pub past_header : Bytes → Bytes
past_header message =
    if starts_with message copy_header then drop (length copy_header) message else message

unfoldable pub row : Bytes → Option Bytes
unfolding past_header
row message =
    let body = past_header message in
    if not (starts_with body (be_i16 copy_trailer)) then some body else none

-- The messages of a COPY up to its first error, each a row or dropped.
unfoldable pub rows : List (Result Bytes AnyError) → List (Outcome Bytes)
rows [] = []
rows (err e ∷ copy) = err (in_source e) ∷ rows copy
rows (ok message ∷ copy) = elim (row message) [
  | none ↦ rows copy
  | some bytes ↦ ok bytes ∷ rows copy
]

-- `bytes::TryGetError`.
abbrev pub too_short : TransferredError
too_short = in_source (root (foreign "the TryGetError" ∷ []))

count_is : ℤ → ℕ → Bool
count_is (pos n) width = n == width
count_is (negsuc n) width = false

-- `Cells::new`: the bytes behind the field count.
unfoldable pub cells_new : Bytes → ℕ → Outcome Bytes
unfolding count_is
cells_new bytes width = do
  (count, rest) ← ok_or too_short (try_get_i16 bytes)
  if count_is count width
      then ok rest
      else err (
          source_failed
            (lit "a COPY row holds " ∷ int count ∷ lit " fields, not " ∷ nat width ∷ []))

-- `split_off(..bytes)`: the first `n` bytes and the rest, `none` where there are fewer.
split_off : ℕ → Bytes → Option (Bytes × Bytes)
split_off n bytes = if leb n (length bytes) then some (take n bytes, drop n bytes) else none

-- `usize::try_from(len).ok().and_then(…)`
split_len : ℤ → Bytes → Option (Bytes × Bytes)
unfolding split_off
split_len (pos n) bytes = split_off n bytes
split_len (negsuc n) bytes = none

-- `Cells::take`: the next cell, and the bytes behind it.
unfoldable pub take_cell : Bytes → Outcome (Cell × Bytes)
unfolding split_len
take_cell bytes = do
  (len, rest) ← ok_or too_short (try_get_i32 bytes)
  if eq_ℤ len null_field then ok (none, rest) else do
    (cell, rest') ←
        ok_or
          (source_failed (lit "a COPY field of " ∷ int len ∷ lit " bytes runs past its row" ∷ []))
          (split_len len rest)
    ok (some cell, rest')
