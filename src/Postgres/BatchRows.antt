-- ===== src/Postgres/BatchRows.antt =====
-- The columns of a decoded batch, for `Decoder::decode` in pg_to_arrow.rs.
use mathlib.Core.Path.{subst}
use transferred.Prelude.{
  ℕ, ◌+◌, ◌≡◌, List, [], ◌∷◌, Result, ok, map_err, >>=-eq-ok, length, All, arith,
}
use transferred.Prelude.Bytes.{Bytes}
use transferred.Core.Error.{Outcome, TransferredError}
use transferred.Core.Arrow.{Array}
use transferred.Postgres.Protocol.{Protocol, Cell}
use transferred.Postgres.CopyOut.{take_cell, cells_new}
use transferred.Postgres.Append.{append}
use transferred.Postgres.Decoder.{ColumnDecoder, column_append, append_cells, append_rows}
use transferred.Postgres.Aligned.{IsAligned, Grows, grown, failed, append-Grows}

-- Every column's builder has `n` rows.
abbrev pub AllHave : ℕ → List ColumnDecoder → Type 0
AllHave n decoders = All (λ (decoder : ColumnDecoder). IsAligned n decoder.builder) decoders

ok_injective : {A : Type 0} {E : Type 0} {a b : A} → ◌≡◌ {A = Result A E} (ok a) (ok b) → a ≡ b
ok_injective h = cc

of_Grows :
    {F : Type 0} (n : ℕ) (f : TransferredError → F) (r : Outcome Array) {builder : Array}
    → Grows n r
    → map_err f r ≡ ok builder
    → IsAligned (n + 1) builder
of_Grows n f r (grown b aligned) h = subst (IsAligned (n + 1)) (ok_injective h) aligned
of_Grows n f r (failed e) h = absurd (cc h)

module _ (P : Protocol) where
  column_append-IsAligned :
      (self : ColumnDecoder) (n : ℕ) (cell : Cell) {self' : ColumnDecoder}
      → IsAligned n self.builder
      → column_append P self cell ≡ ok self'
      → IsAligned (n + 1) self'.builder
  unfolding column_append
  column_append-IsAligned self n cell aligned h =
      let appended = >>=-eq-ok (map_err _ (append P self.decoding self.builder cell)) _ h in
      subst (λ (d : ColumnDecoder). IsAligned (n + 1) d.builder) (ok_injective appended.2)
        (of_Grows n _ (append P self.decoding self.builder cell)
          (append-Grows P self.decoding self.builder n cell aligned) appended.1)

  append_cells-AllHave :
      (decoders : List ColumnDecoder) (n : ℕ) (cells : Bytes) {decoders' : List ColumnDecoder}
      → AllHave n decoders
      → append_cells P decoders cells ≡ ok decoders'
      → AllHave (n + 1) decoders'
  unfolding append_cells
  append_cells-AllHave [] n cells aligned h = subst (AllHave (n + 1)) (ok_injective h) tt
  append_cells-AllHave (decoder ∷ decoders) n cells aligned h =
      let taken = >>=-eq-ok (take_cell cells) _ h in
      let one = >>=-eq-ok (column_append P decoder taken.0.0) _ taken.2 in
      let rest = >>=-eq-ok (append_cells P decoders taken.0.1) _ one.2 in
      subst (AllHave (n + 1)) (ok_injective rest.2) (
        column_append-IsAligned decoder n taken.0.0 aligned.0 one.1,
        append_cells-AllHave decoders n taken.0.1 aligned.1 rest.1,
      )

  -- Where every column's builder has n rows and the rows of a batch are appended without an error,
  -- every builder then has a value more for each row, and so has every field of a range's struct.
  pub append_rows-AllHave :
      (decoders : List ColumnDecoder) (n : ℕ) (rows : List Bytes) {decoders' : List ColumnDecoder}
      → AllHave n decoders
      → append_rows P decoders rows ≡ ok decoders'
      → AllHave (n + length rows) decoders'
  unfolding append_rows
  append_rows-AllHave decoders n [] {decoders'} aligned h =
      subst (λ k. AllHave k decoders') (omega arith) (subst (AllHave n) (ok_injective h) aligned)
  append_rows-AllHave decoders n (row ∷ rows) {decoders'} aligned h =
      let counted = >>=-eq-ok (cells_new row (length decoders)) _ h in
      let one = >>=-eq-ok (append_cells P decoders counted.0) _ counted.2 in
      subst (λ k. AllHave k decoders') (omega arith)
        (append_rows-AllHave one.0 (n + 1) rows
          (append_cells-AllHave decoders n counted.0 aligned one.1) one.2)
