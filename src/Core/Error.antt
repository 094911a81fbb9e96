-- ===== src/Core/Error.antt =====
-- crates/transferred-core/src/error.rs: the errors, and the text that each displays.
use transferred.Prelude.{ℕ, String, Text, List, [], ◌∷◌, Result}
use transferred.Prelude.Int.{ℤ}

-- A piece of a formatted message. `foreign` stands for what the `Display` or `Debug` of a value of
-- another crate prints there, named by what is printed.
pub data Piece : Type 0 where
  lit : String → Piece
  text : Text → Piece
  int : ℤ → Piece
  nat : ℕ → Piece
  foreign : String → Piece

abbrev pub Message : Type 0
Message = List Piece

-- A boxed error: what it displays, and what its `source()` answers.
pub data AnyError : Type 0 where
  root : Message → AnyError
  caused : Message → AnyError → AnyError

-- An `io::Error`, by the one `ErrorKind` that the code asks for.
pub data IoError : Type 0 where
  not_found : AnyError → IoError
  other_io : AnyError → IoError

pub data TransferredError : Type 0 where
  in_source : AnyError → TransferredError
  in_destination : AnyError → TransferredError
  empty_source : TransferredError
  io : IoError → TransferredError
  arrow : AnyError → TransferredError

abbrev pub Outcome : Type 0 → Type 0
Outcome A = Result A TransferredError

-- `Display`, the `#[error("…")]` line of each variant.
unfoldable pub display : TransferredError → Message
display (in_source cause) = lit "source error" ∷ []
display (in_destination cause) = lit "destination error" ∷ []
display empty_source = lit "empty source: produced no batches" ∷ []
display (io cause) = lit "io error" ∷ []
display (arrow cause) = lit "arrow error" ∷ []

-- `TransferredError::in_source(message)` and its twin, from a message.
abbrev pub source_failed : Message → TransferredError
source_failed message = in_source (root message)

abbrev pub destination_failed : Message → TransferredError
destination_failed message = in_destination (root message)
