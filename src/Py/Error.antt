-- ===== src/Py/Error.antt =====
-- crates/transferred-py/src/error.rs: the Python exception of an error.
use transferred.Prelude.{◌∷◌, ◌++◌, Option, some, none}
use transferred.Core.Error.{
  lit, Message, AnyError, root, caused, IoError, not_found, other_io, TransferredError, in_source,
  in_destination, empty_source, io, arrow, display,
}

-- The exception classes, the last standing for Python's own `RuntimeError` and `ValueError`.
pub data PyClass : Type 0 where
  transferred_error source_error empty_source_error destination_error arrow_error io_error : PyClass
  runtime_error value_error : PyClass

-- `#[pyclass(extends = …)]`; `none` is a class of Python's.
unfoldable pub extends : PyClass → Option PyClass
extends transferred_error = none
extends source_error = some transferred_error
extends empty_source_error = some source_error
extends destination_error = some transferred_error
extends arrow_error = some transferred_error
extends io_error = some transferred_error
extends runtime_error = none
extends value_error = none

pub record PyErr : Type 0 where
  pub class : PyClass
  pub message : Message

-- `to_string()` of an error, and its `source()`.
unfoldable pub message_of : AnyError → Message
message_of (root message) = message
message_of (caused message cause) = message

source_of : AnyError → Option AnyError
source_of (root message) = none
source_of (caused message cause) = some cause

-- The `while let` loop over the causes, from the message so far; the chain gets shorter.
unfoldable pub join_causes : Message → AnyError → Message
unfolding message_of
join_causes message (root _) = message
join_causes message (caused _ cause) = join_causes (message ++ (lit ": " ∷ message_of cause)) cause

unfoldable pub causes : AnyError → Message
unfolding join_causes message_of
causes error = join_causes (message_of error) error

unfoldable pub io_cause : IoError → AnyError
io_cause (not_found cause) = cause
io_cause (other_io cause) = cause

unfoldable pub to_pyerr : TransferredError → PyErr
unfolding causes io_cause
to_pyerr (in_source cause) = record { class = source_error; message = causes cause }
to_pyerr empty_source = record { class = empty_source_error; message = display empty_source }
to_pyerr (in_destination cause) = record { class = destination_error; message = causes cause }
to_pyerr (arrow cause) = record { class = arrow_error; message = causes cause }
to_pyerr (io cause) = record { class = io_error; message = causes (io_cause cause) }
