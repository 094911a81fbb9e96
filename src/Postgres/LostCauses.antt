-- ===== src/Postgres/LostCauses.antt =====
-- The error of a column, for `ColumnDecoder::append` in source/pg_to_arrow.rs.
use transferred.Prelude.{◌≡◌, refl, err}
use transferred.Core.Error.{AnyError, in_source, display}
use transferred.Postgres.Protocol.{Protocol, Cell}
use transferred.Postgres.Append.{append}
use transferred.Postgres.Decoder.{ColumnDecoder, column_append}

-- Two cells that a column fails on, for whatever causes, give one and the same error: the cause of
-- neither is in it.
pub column_append-same :
    (P : Protocol) (self : ColumnDecoder) (cell other : Cell) (cause other_cause : AnyError)
    → append P self.decoding self.builder cell ≡ err (in_source cause)
    → append P self.decoding self.builder other ≡ err (in_source other_cause)
    → column_append P self cell ≡ column_append P self other
unfolding column_append display
column_append-same P self cell other cause other_cause h h' = rw (h, h') refl
