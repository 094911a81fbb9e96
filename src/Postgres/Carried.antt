-- ===== src/Postgres/Carried.antt =====
-- What a row of an array goes as, from destination/arrow_to_pg.rs to source/pg_to_arrow.rs.
use transferred.Prelude.{ℕ, ◌+◌, ◌≡◌, [], ok}
use transferred.Core.Arrow.{Array}
use transferred.Postgres.Protocol.{Protocol, Cell}
use transferred.Postgres.PgToArrow.{Decoding}
use transferred.Postgres.ArrowToPg.{Encoding}
use transferred.Postgres.Append.{append}
use transferred.Postgres.Write.{write}
use transferred.Postgres.Casts.{is_null}
use transferred.Postgres.RowRoundTrip.{written_of}
use transferred.Postgres.Values.{limit}
use transferred.Postgres.Windows.{between}
use transferred.Postgres.Slots.{IsBelow, is_none}

-- The row of an array is written as a cell, a null one for a null, and the cell is appended to the rows
-- before it, from some row on, as the row that it was written for.
abbrev pub Carried : Protocol → Encoding → Decoding → Array → ℕ → ℕ → Type 0
Carried P e d a from row =
    (cell : Cell) × IsBelow (limit e) cell
    × (is_null a row ≡ is_none cell)
    × (write P e a row [] ≡ ok (written_of cell))
    × (append P d (between from row a) cell ≡ ok (between from (row + 1) a))
