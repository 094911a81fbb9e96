-- ===== src/Py/Examples.antt =====
-- The theorems on the bindings at concrete values.
use transferred.Prelude.{◌≡◌, [], ◌∷◌, some, err}
use transferred.Core.Error.{lit, AnyError, root, caused, empty_source, in_source}
use transferred.Core.Effect.{raise}
use transferred.Core.Transfer.{Source, Destination}
use transferred.Py.Error.{causes, to_pyerr, transferred_error}
use transferred.Py.Transfer.{
  PySource, PyDestination, PyTransfer, new, run, already_consumed, transfer_consumed,
}
use transferred.Py.Exceptions.{Subclass, to_pyerr-Subclass, causes-joined}
use transferred.Py.SingleShot.{run_twice, new_spends}

abbrev refused : AnyError
refused = caused (lit "cannot connect" ∷ []) (root (lit "connection refused" ∷ []))

to_pyerr-Subclass_example : Subclass (to_pyerr (in_source refused)).class transferred_error
to_pyerr-Subclass_example = to_pyerr-Subclass (in_source refused)

causes-joined_example :
    causes refused ≡ lit "cannot connect" ∷ lit ": " ∷ lit "connection refused" ∷ []
causes-joined_example = causes-joined refused

abbrev source : Source (Unit {0})
source = record { stream_partitions = raise empty_source }

abbrev destination : Destination (Unit {0})
destination = record { write_partitions = λ partitions. raise empty_source }

abbrev py_source : PySource (Unit {0})
py_source = record { inner = some source }

abbrev py_destination : PyDestination (Unit {0})
py_destination = record { inner = some destination }

abbrev py_transfer : PyTransfer (Unit {0})
py_transfer = record { inner = some (record { source = source; destination = destination }) }

run_twice_example :
    ((run (run py_transfer tt).1 tt).0 ≡ err transfer_consumed)
    × ((run (run py_transfer tt).1 tt).2 ≡ tt)
run_twice_example = run_twice py_transfer tt tt

new_spends_example :
    ((new py_source (new py_source py_destination).2).0 ≡ err already_consumed)
    × ((new (new py_source py_destination).1 py_destination).0 ≡ err already_consumed)
new_spends_example = new_spends py_source py_source py_destination py_destination
