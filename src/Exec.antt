-- ===== src/Exec.antt =====
-- Methods that change an object and may raise or be cancelled. What was written before stays
-- written, so the state comes back beside every outcome.
use apparitor.Prelude.{◌≡◌, refl}
use apparitor.Result.{Result, ok, raise, cancelled}

abbrev pub Exec {ℓ} : Type ℓ → Type ℓ → Type ℓ
Exec S A = S → Result A × S

module _ {ℓ} {S A : Type ℓ} where
  abbrev pub pure : A → Exec S A
  pure a s = (ok a, s)

  abbrev pub lift : Result A → Exec S A
  lift r s = (r, s)

module _ {ℓ} {S A B : Type ℓ} where
  abbrev pub after : Result A → (A → Exec S B) → Exec S B
  after (ok a) f s = f a s
  after (raise e) f s = (raise e, s)
  after cancelled f s = (cancelled, s)

  infixl 5 ◌>>=◌ ◌>>◌
  abbrev pub ◌>>=◌ : Exec S A → (A → Exec S B) → Exec S B
  ◌>>=◌ m f s = let (r, s') = m s in after r f s'

  abbrev pub ◌>>◌ : Exec S A → Exec S B → Exec S B
  m >> n = m >>= λ _. n

module _ {ℓ} {S A B : Type ℓ} where
  -- A chain that returns has a first step that returned.
  pub after-ok :
      (r : Result A) (f : A → Exec S B) (s : S) {b : B}
      → (after r f s).0 ≡ ok b
      → (a : A) × (r ≡ ok a) × ((f a s).0 ≡ ok b)
  after-ok (ok a) f s h = (a, refl, h)
  after-ok (raise exc) f s h = cc
  after-ok cancelled f s h = cc

  -- What holds of the state before the rest of a chain, and is kept by the rest, holds behind it.
  pub after-state {κ} :
      (P : S → Type κ) (r : Result A) (f : A → Exec S B) (s : S)
      → P s
      → ((a : A) → P (f a s).1)
      → P (after r f s).1
  after-state P (ok a) f s h k = k a
  after-state P (raise exc) f s h k = h
  after-state P cancelled f s h k = h

-- Two chains whose rests end alike from every state end alike.
pub after_cong {ℓ} :
    {S A B : Type ℓ} {f g : A → Exec S B} (r : Result A) (s : S)
    → ((a : A) (s : S) → f a s ≡ g a s)
    → after r f s ≡ after r g s
after_cong (ok a) s h = h a s
after_cong (raise e) s h = refl
after_cong cancelled s h = refl
