-- ===== src/Postgres/Constants.antt =====
-- crates/transferred-postgres/src/lib.rs: the constants that both directions share.
use transferred.Prelude.{ℕ, [], ◌∷◌}
use transferred.Prelude.Int.{ℤ, pos, negsuc}
use transferred.Prelude.Bytes.{Bytes}

abbrev pub nanos_per_micro : ℕ
nanos_per_micro = 1000

abbrev pub uuid_bytes : ℤ
uuid_bytes = pos 16

abbrev pub copy_header : Bytes
copy_header =
    b'P' ∷ b'G' ∷ b'C' ∷ b'O' ∷ b'P' ∷ b'Y' ∷ 10 ∷ 0xff ∷ 13 ∷ 10 ∷ 0 ∷ 0 ∷ 0 ∷ 0 ∷ 0 ∷ 0 ∷ 0 ∷ 0
    ∷ 0 ∷ []

abbrev pub copy_trailer : ℤ
copy_trailer = negsuc 0

abbrev pub null_field : ℤ
null_field = negsuc 0
