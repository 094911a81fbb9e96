-- ===== src/Py/SingleShot.antt =====
-- Single use of the Python objects, for transfer.rs of the bindings.
use transferred.Prelude.{◌≡◌, err, arith}
use transferred.Py.Transfer.{
  PySource, PyDestination, PyTransfer, new, run, already_consumed, transfer_consumed,
}

module _ {ℓ} {W : Type ℓ} where
  -- A transfer runs once: whatever the first run answers, the next one answers that it was consumed
  -- already and leaves the world alone.
  pub run_twice :
      (self : PyTransfer W) (w w' : W)
      → ((run (run self w).1 w').0 ≡ err transfer_consumed) × ((run (run self w).1 w').2 ≡ w')
  unfolding run
  run_twice self w w' = ground arith

  -- Building a transfer spends both objects, whether it succeeds or fails: no later one can be
  -- built with either of them.
  pub new_spends :
      (source other_source : PySource W) (destination other_destination : PyDestination W)
      → ((new other_source (new source destination).2).0 ≡ err already_consumed)
        × ((new (new source destination).1 other_destination).0 ≡ err already_consumed)
  unfolding new
  new_spends source other_source destination other_destination = ground arith
