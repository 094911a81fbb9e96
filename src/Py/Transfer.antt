-- ===== src/Py/Transfer.antt =====
-- crates/transferred-py/src/transfer.rs: the single-shot objects that Python holds. Taking what is
-- inside one leaves it consumed.
use transferred.Prelude.{[], ◌∷◌, Option, some, none, Result, ok, err}
use transferred.Core.Error.{lit, TransferredError}
use transferred.Core.Report.{RunReport}
use transferred.Core.Transfer
use transferred.Core.Transfer.{Source, Destination, Transfer}
use transferred.Py.Report
use transferred.Py.Report.{PyRunReport}
use transferred.Py.Error.{PyErr, runtime_error, to_pyerr}

module _ {ℓ} where
  pub record PySource (W : Type ℓ) : Type ℓ where
    pub inner : Option (Source W)

  pub record PyDestination (W : Type ℓ) : Type ℓ where
    pub inner : Option (Destination W)

  pub record PyTransfer (W : Type ℓ) : Type ℓ where
    pub inner : Option (Transfer W)

abbrev pub already_consumed : PyErr
already_consumed = record {
  class = runtime_error;
  message = lit "source or destination already consumed by another Transfer" ∷ [];
}

abbrev pub transfer_consumed : PyErr
transfer_consumed = record { class = runtime_error; message = lit "Transfer already consumed" ∷ [] }

-- `map_err(to_pyerr)`, and the report as its Python object.
unfoldable pub mapped_report : Result RunReport TransferredError → Result PyRunReport PyErr
unfolding Report.new
mapped_report (ok report) = ok (Report.new report)
mapped_report (err e) = err (to_pyerr e)

module _ {ℓ} {W : Type ℓ} where
  -- `PySource::init` and `PyDestination::init`: the base part of an object of a subclass.
  unfoldable pub source_init : Source W → PySource W
  source_init source = record { inner = some source }

  unfoldable pub destination_init : Destination W → PyDestination W
  destination_init destination = record { inner = some destination }

  joined : Option (Source W) → Option (Destination W) → Result (PyTransfer W) PyErr
  joined (some source) (some destination) =
      ok (record { inner = some (Transfer.new source destination) })
  joined _ _ = err already_consumed

  -- Both are taken before either is looked at; the two objects come back as they are left.
  unfoldable pub new :
      PySource W → PyDestination W → Result (PyTransfer W) PyErr × PySource W × PyDestination W
  unfolding joined
  new source destination =
      (joined source.inner destination.inner, record { inner = none }, record { inner = none })

  finished : Result PyRunReport PyErr → W → Result PyRunReport PyErr × PyTransfer W × W
  finished r w = (r, record { inner = none }, w)

  run_inner : Option (Transfer W) → W → Result PyRunReport PyErr × PyTransfer W × W
  unfolding finished mapped_report
  run_inner none w = finished (err transfer_consumed) w
  run_inner (some transfer) w =
      finished (mapped_report (Transfer.run transfer w).0) (Transfer.run transfer w).1

  -- Building the runtime is tokio's, and is taken to succeed.
  unfoldable pub run : PyTransfer W → W → Result PyRunReport PyErr × PyTransfer W × W
  unfolding run_inner
  run self w = run_inner self.inner w
