-- ===== src/Base/Machine.antt =====
-- Methods on `&mut self` that return a `Result`: they return the new state beside the result, so a
-- call that fails shows what it changed before it failed. The do blocks read like the `?` operator.
use mathlib.Core.Path.{◌≡◌, ap}
use aether_radio_sim.Base.Results.{Result, ok, err}

abbrev pub Method : Type 0 → Type 0 → Type 0 → Type 0
Method S E A = S → S × Result E A

module _ {S E : Type 0} where
  infixl 5 ◌>>=◌ ◌>>◌
  abbrev pub ◌>>=◌ : {A B : Type 0} → Method S E A → (A → Method S E B) → Method S E B
  ◌>>=◌ m f s = let (s', r) = m s in elim r [ ok a ↦ f a s' | err e ↦ (s', err e) ]

  abbrev pub ◌>>◌ : {A B : Type 0} → Method S E A → Method S E B → Method S E B
  m >> k = m >>= λ _. k

  abbrev pub pure : {A : Type 0} → A → Method S E A
  pure a s = (s, ok a)

  abbrev pub fail : {A : Type 0} → E → Method S E A
  fail e s = (s, err e)

  -- A step that succeeds hands on its value and its state; one that fails ends the method.
  pub >>=_ok :
      {A B : Type 0} (m : Method S E A) (f : A → Method S E B) (s : S) {s' : S} {a : A}
      → m s ≡ (s', ok a)
      → (m >>= f) s ≡ f a s'
  >>=_ok m f s e = ap (λ x. elim x.1 [ ok a ↦ f a x.0 | err e ↦ (x.0, err e) ]) e

  pub >>=_err :
      {A B : Type 0} (m : Method S E A) (f : A → Method S E B) (s : S) {s' : S} {e : E}
      → m s ≡ (s', err e)
      → (m >>= f) s ≡ (s', err e)
  >>=_err m f s h = ap (λ x. elim x.1 [ ok a ↦ f a x.0 | err e ↦ (x.0, err e) ]) h

  -- What holds after a step and through the rest holds after both; `weaken` is for a step that fails.
  pub >>=_keeps :
      {A B : Type 0} (P Q : S → Type 0) (m : Method S E A) (f : A → Method S E B) (s : S)
      → P (m s).0
      → ((t : S) → P t → Q t)
      → ((a : A) (t : S) → P t → Q (f a t).0)
      → Q ((m >>= f) s).0
  >>=_keeps {A} {B} P Q m f s p weaken next = go (m s) p
    where
      go :
          (x : S × Result E A)
          → P x.0
          → Q (elim x.1 as (λ _. S × Result E B) [ ok a ↦ f a x.0 | err e ↦ (x.0, err e) ]).0
      go (t, ok a) h = next a t h
      go (t, err e) h = weaken t h

  -- What a method ensures of its value and the state it leaves, where it succeeds.
  abbrev pub Post : {A : Type 0} → (A → S → Type 0) → S × Result E A → Type 0
  Post Q x = elim x.1 [ ok a ↦ Q a x.0 | err _ ↦ Unit {0} ]

  pub >>=_Post :
      {A B : Type 0} (Q : A → S → Type 0) (R : B → S → Type 0) (m : Method S E A)
      (f : A → Method S E B) (s : S)
      → Post Q (m s)
      → ((a : A) (t : S) → Q a t → Post R (f a t))
      → Post R ((m >>= f) s)
  >>=_Post {A} {B} Q R m f s h next = go (m s) h
    where
      go :
          (x : S × Result E A)
          → Post Q x
          → Post R (elim x.1 as (λ _. S × Result E B) [ ok a ↦ f a x.0 | err e ↦ (x.0, err e) ])
      go (t, ok a) h = next a t h
      go (t, err e) h = tt

  pub Post-any : {A : Type 0} (x : S × Result E A) → Post (λ _ _. Unit {0}) x
  Post-any (t, ok a) = tt
  Post-any (t, err e) = tt
