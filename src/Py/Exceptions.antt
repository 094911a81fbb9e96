-- ===== src/Py/Exceptions.antt =====
-- The Python exception of every error, for error.rs of the bindings.
use transferred.Prelude.{◌∙◌, append_assoc, ◌≡◌, refl, List, [], ◌∷◌, ◌++◌, some}
use transferred.Core.Error.{
  lit, Message, AnyError, root, caused, TransferredError, in_source, in_destination, empty_source,
  io, arrow,
}
use transferred.Py.Error.{
  PyClass, extends, causes, join_causes, message_of, to_pyerr, transferred_error,
}

-- `Subclass c d`: an `except d` catches an exception of the class `c`.
pub data Subclass (c : PyClass) : PyClass → Type 0 where
  itself : Subclass c c
  above : {d e : PyClass} → Subclass c d → extends d ≡ some e → Subclass c e

-- The exception of every error of the library is of a class below TransferredError.
pub to_pyerr-Subclass : (e : TransferredError) → Subclass (to_pyerr e).class transferred_error
unfolding to_pyerr extends
to_pyerr-Subclass (in_source cause) = above itself refl
to_pyerr-Subclass empty_source = above (above itself refl) refl
to_pyerr-Subclass (in_destination cause) = above itself refl
to_pyerr-Subclass (arrow cause) = above itself refl
to_pyerr-Subclass (io cause) = above itself refl

-- The messages of an error and of all that caused it, outermost first.
abbrev pub chain : AnyError → List Message
chain (root message) = message ∷ []
chain (caused message cause) = message ∷ chain cause

abbrev pub joined : List Message → Message
joined [] = []
joined (m ∷ []) = m
joined (m ∷ n ∷ ms) = m ++ (lit ": " ∷ joined (n ∷ ms))

abbrev behind_head : AnyError → List Message
behind_head (root message) = []
behind_head (caused message cause) = chain cause

joined-append :
    (m n : Message) (rest : List Message)
    → joined ((m ++ (lit ": " ∷ n)) ∷ rest) ≡ m ++ (lit ": " ∷ joined (n ∷ rest))
joined-append m n [] = refl
joined-append m n (x ∷ rest) = append_assoc m (lit ": " ∷ n) (lit ": " ∷ joined (x ∷ rest))

join_causes-joined :
    (message : Message) (e : AnyError) → join_causes message e ≡ joined (message ∷ behind_head e)
unfolding join_causes message_of
join_causes-joined message (root m) = refl
join_causes-joined message (caused m (root n)) = refl
join_causes-joined message (caused m (caused n cause)) =
    join_causes-joined (message ++ (lit ": " ∷ n)) (caused n cause)
    ∙ joined-append message n (chain cause)

-- The message of a Python exception is the messages of the error and of all that caused it,
-- outermost first, with ": " between them.
pub causes-joined : (e : AnyError) → causes e ≡ joined (chain e)
unfolding causes message_of
causes-joined (root message) = join_causes-joined message (root message)
causes-joined (caused message cause) = join_causes-joined message (caused message cause)
