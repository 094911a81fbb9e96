-- ===== src/Core/Effect.antt =====
-- Async functions that act on the outside world and may fail: the new world comes back beside an
-- error too, since what was done before the error stays done.
use transferred.Prelude.{◌≡◌, refl, ◌∙◌, Result, ok, err, map_err}
use transferred.Core.Error.{TransferredError}

abbrev pub Effect {ℓ κ} : Type ℓ → Type κ → Type (ℓ ⊔ κ)
Effect W A = W → Result A TransferredError × W

module _ {ℓ κ} {W : Type ℓ} {A : Type κ} where
  abbrev pub pure : A → Effect W A
  pure a w = (ok a, w)

  abbrev pub raise : TransferredError → Effect W A
  raise e w = (err e, w)

  abbrev pub lift : Result A TransferredError → Effect W A
  lift r w = (r, w)

module _ {ℓ κ ε} {W : Type ℓ} {A : Type κ} {B : Type ε} where
  abbrev pub continue : Result A TransferredError → (A → Effect W B) → Effect W B
  continue (ok a) f w = f a w
  continue (err e) f w = (err e, w)

  infixl 5 ◌>>=◌
  abbrev pub ◌>>=◌ : Effect W A → (A → Effect W B) → Effect W B
  ◌>>=◌ m f w = continue (m w).0 f (m w).1

infixl 5 ◌>>◌
abbrev pub ◌>>◌ {ℓ κ} : {W : Type ℓ} {B : Type κ} → Effect W (Unit {0}) → Effect W B → Effect W B
m >> k = m >>= λ _. k

-- A call that maps the error of another crate into a `TransferredError`.
abbrev pub mapped {ℓ κ ε} :
    {W : Type ℓ} {A : Type κ} {E : Type ε}
    → (E → TransferredError)
    → (W → Result A E × W)
    → Effect W A
mapped f m w = (map_err f (m w).0, (m w).1)

-- What runs on the way out of an error: a destructor, or an explicit clean-up.
module _ {ℓ κ} {W : Type ℓ} {A : Type κ} where
  abbrev pub cleaned : (W → W) → Result A TransferredError → W → Result A TransferredError × W
  cleaned clean (ok a) w = (ok a, w)
  cleaned clean (err e) w = (err e, clean w)

  abbrev pub on_error : (W → W) → Effect W A → Effect W A
  on_error clean m w = cleaned clean (m w).0 (m w).1

-- What a run that succeeded went through.
module _ {ℓ κ ε} {W : Type ℓ} {A : Type κ} {B : Type ε} where
  continue-eq-ok :
      (p : Result A TransferredError × W) (f : A → Effect W B) (r : Result A TransferredError)
      (w : W) {b : B} {w' : W}
      → p ≡ (r, w)
      → continue r f w ≡ (ok b, w')
      → (a : A) × (v : W) × (p ≡ (ok a, v)) × (f a v ≡ (ok b, w'))
  continue-eq-ok p f (ok a) w e h = (a, w, e, h)
  continue-eq-ok p f (err x) w e h = absurd (cc h)

  pub bind-eq-ok :
      (m : Effect W A) (f : A → Effect W B) (w : W) {b : B} {w' : W}
      → (m >>= f) w ≡ (ok b, w')
      → (a : A) × (v : W) × (m w ≡ (ok a, v)) × (f a v ≡ (ok b, w'))
  bind-eq-ok m f w h = continue-eq-ok (m w) f (m w).0 (m w).1 refl h

module _ {ℓ κ ε} {W : Type ℓ} {A : Type κ} {E : Type ε} where
  mapped_pair :
      (g : E → TransferredError) (r : Result A E) (w : W) {a : A} {w' : W}
      → ◌≡◌ {A = Result A TransferredError × W} (map_err g r, w) (ok a, w')
      → ◌≡◌ {A = Result A E × W} (r, w) (ok a, w')
  mapped_pair g (ok b) w h = cc
  mapped_pair g (err x) w h = absurd (cc h)

  pub mapped-eq-ok :
      (g : E → TransferredError) (m : W → Result A E × W) (w : W) {a : A} {w' : W}
      → ◌≡◌ {A = Result A TransferredError × W} (mapped g m w) (ok a, w')
      → ◌≡◌ {A = Result A E × W} (m w) (ok a, w')
  mapped-eq-ok g m w h = mapped_pair g (m w).0 (m w).1 h

module _ {ℓ κ} {W : Type ℓ} {A : Type κ} where
  pub on_error-eq-ok :
      (clean : W → W) (m : Effect W A) (w : W) {a : A} {w' : W}
      → on_error clean m w ≡ (ok a, w')
      → m w ≡ (ok a, w')
  on_error-eq-ok clean m w h = go (m w) (m w).0 (m w).1 refl h
    where
      go :
          (p : Result A TransferredError × W) (r : Result A TransferredError) (v : W) {a : A}
          {w' : W}
          → p ≡ (r, v)
          → cleaned clean r v ≡ (ok a, w')
          → p ≡ (ok a, w')
      go p (ok b) v e h = e ∙ h
      go p (err x) v e h = absurd (cc h)
