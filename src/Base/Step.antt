-- ===== src/Base/Step.antt =====
-- A method of an object: it takes the object's state, and returns a new one beside its outcome.
use mathlib.Core.Path.{◌≡◌, refl}
use skywire_mainnet_old.Base.Results.{Error, Outcome, ok, err, panic}

abbrev pub Step {ℓ} : Type 0 → Type ℓ → Type ℓ
Step S A = S → S × Outcome A

-- An error that is only logged.
abbrev pub or_log : Outcome (Unit {0}) → Outcome (Unit {0})
or_log (err e) = ok tt
or_log r = r

-- `fmt.Errorf` around an error of another call.
abbrev pub renamed {ℓ} : {A : Type ℓ} → Error → Outcome A → Outcome A
renamed e (err _) = err e
renamed e r = r

module _ {S : Type 0} where
  abbrev pub after {ℓ κ} :
      {A : Type ℓ} {B : Type κ} → S × Outcome A → (A → Step S B) → S × Outcome B
  after (s, ok a) f = f a s
  after (s, err e) f = (s, err e)
  after (s, panic) f = (s, panic)

  infixl 5 ◌>>=◌ ◌>>◌
  abbrev pub ◌>>=◌ {ℓ κ} : {A : Type ℓ} {B : Type κ} → Step S A → (A → Step S B) → Step S B
  ◌>>=◌ m f = λ s. after (m s) f

  abbrev pub ◌>>◌ {κ} : {B : Type κ} → Step S (Unit {0}) → Step S B → Step S B
  ◌>>◌ m k = λ s. after (m s) (λ _. k)

  abbrev pub pure {ℓ} : {A : Type ℓ} → A → Step S A
  pure a = λ s. (s, ok a)

  -- A call that leaves this state alone.
  abbrev pub lift {ℓ} : {A : Type ℓ} → Outcome A → Step S A
  lift r = λ s. (s, r)

  abbrev pub get : Step S S
  get = λ s. (s, ok s)

  abbrev pub logged : Step S (Unit {0}) → Step S (Unit {0})
  logged m = λ s. let (s', r) = m s in (s', or_log r)

  abbrev pub wrapped {ℓ} : {A : Type ℓ} → Error → Step S A → Step S A
  wrapped e m = λ s. let (s', r) = m s in (s', renamed e r)

  pub after-ok {ℓ κ} :
      {A : Type ℓ} {B : Type κ} {m : S × Outcome A} {s : S} {a : A} {r : S × Outcome B}
      (f : A → Step S B)
      → m ≡ (s, ok a)
      → f a s ≡ r
      → after m f ≡ r
  after-ok f p q = rw p q

  pub after-eq-ok {ℓ κ} :
      {A : Type ℓ} {B : Type κ} (m : S × Outcome A) (f : A → Step S B) {s' : S} {b : B}
      → after m f ≡ (s', ok b)
      → (s : S) × (a : A) × (m ≡ (s, ok a)) × (f a s ≡ (s', ok b))
  after-eq-ok (s, ok a) f h = (s, a, refl, h)
  after-eq-ok (s, err e) f h = cc
  after-eq-ok (s, panic) f h = cc
