-- ===== src/Core/Keeping.antt =====
-- What an effect leaves as it was, step by step: the lemmas for chains of fallible calls.
use transferred.Prelude.{◌≡◌, refl, Result, ok, err}
use transferred.Core.Error.{TransferredError}
use transferred.Core.Effect.{Effect, pure, lift, continue, ◌>>=◌, cleaned, on_error}

module _ {ℓ κ} {W : Type ℓ} {A : Type κ} (Q : W → Type 0) where
  -- Whatever it answers, and only where it fails.
  abbrev pub Keeps : Effect W A → Type ℓ
  Keeps m = (w : W) → Q w → Q (m w).1

  abbrev pub FailsKeeping : Effect W A → Type (ℓ ⊔ κ)
  FailsKeeping m = (w : W) (e : TransferredError) → (m w).0 ≡ err e → Q w → Q (m w).1

module _ {ℓ κ ε} {W : Type ℓ} {A : Type κ} {B : Type ε} (Q : W → Type 0) where
  pub bind-Keeps :
      (m : Effect W A) (f : A → Effect W B)
      → Keeps Q m
      → ((a : A) → Keeps Q (f a))
      → Keeps Q (m >>= f)
  bind-Keeps m f h k w q = go (m w).0 (m w).1 (h w q)
    where
      go : (r : Result A TransferredError) (v : W) → Q v → Q (continue r f v).1
      go (ok a) v p = k a v p
      go (err e) v p = p

  pub lift-Keeps :
      (r : Result A TransferredError) (f : A → Effect W B)
      → ((a : A) → r ≡ ok a → Keeps Q (f a))
      → Keeps Q (lift r >>= f)
  lift-Keeps (ok a) f h w q = h a refl w q
  lift-Keeps (err e) f h w q = q

  -- By way of what holds in between.
  pub bind-Through :
      (R : W → Type 0) (m : Effect W A) (f : A → Effect W B)
      → ((w : W) → Q w → R (m w).1)
      → ((w : W) → R w → Q w)
      → ((a : A) (w : W) → R w → Q (f a w).1)
      → Keeps Q (m >>= f)
  bind-Through R m f h left k w q = go (m w).0 (m w).1 (h w q)
    where
      go : (r : Result A TransferredError) (v : W) → R v → Q (continue r f v).1
      go (ok a) v p = k a v p
      go (err e) v p = left v p

  pub bind-FailsKeeping :
      (m : Effect W A) (f : A → Effect W B)
      → Keeps Q m
      → ((a : A) → FailsKeeping Q (f a))
      → FailsKeeping Q (m >>= f)
  bind-FailsKeeping m f h k w e fails q = go (m w).0 (m w).1 (h w q) fails
    where
      go :
          (r : Result A TransferredError) (v : W)
          → Q v
          → (continue r f v).0 ≡ err e
          → Q (continue r f v).1
      go (ok a) v p fails = k a v e fails p
      go (err x) v p fails = p

  pub pure-FailsKeeping :
      (m : Effect W A) (b : B) → FailsKeeping Q m → FailsKeeping Q (m >>= λ _. pure b)
  pure-FailsKeeping m b h w e fails q = go (m w).0 (m w).1 (λ x failed. h w x failed q) fails
    where
      go :
          (r : Result A TransferredError) (v : W)
          → ((x : TransferredError) → r ≡ err x → Q v)
          → (continue r (λ _. pure b) v).0 ≡ err e
          → Q (continue r (λ _. pure b) v).1
      go (ok a) v p fails = absurd (cc fails)
      go (err x) v p fails = p x refl

module _ {ℓ κ} {W : Type ℓ} {A : Type κ} (Q : W → Type 0) (clean : W → W)
    (tidy : (w : W) → Q w → Q (clean w)) (m : Effect W A) where
  pub on_error-Keeps : Keeps Q m → Keeps Q (on_error clean m)
  on_error-Keeps h w q = go (m w).0 (m w).1 (h w q)
    where
      go : (r : Result A TransferredError) (v : W) → Q v → Q (cleaned clean r v).1
      go (ok a) v p = p
      go (err e) v p = tidy v p

  pub on_error-FailsKeeping : FailsKeeping Q m → FailsKeeping Q (on_error clean m)
  on_error-FailsKeeping h w e fails q = go (m w).0 (m w).1 (λ x failed. h w x failed q) fails
    where
      go :
          (r : Result A TransferredError) (v : W)
          → ((x : TransferredError) → r ≡ err x → Q v)
          → (cleaned clean r v).0 ≡ err e
          → Q (cleaned clean r v).1
      go (ok a) v p fails = absurd (cc fails)
      go (err x) v p fails = tidy v (p x refl)
