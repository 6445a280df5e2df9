-- ===== src/Prelude/Actions.antt =====
-- Methods that change a state and may raise. What was changed before a raise stays changed, so the
-- state comes back beside the error too.
use mathlib.Core.Path.{◌≡◌, refl, ap, subst₂}
use mathlib.Core.Bool.{Bool, true, false}
use native.Mathlib.Omega.{arith}
use ritebook.Prelude.Tests.{if◌then◌else◌}
use ritebook.Prelude.Results.{Result, ok, err}

abbrev pub Action {ℓ} : Type ℓ → Type ℓ → Type ℓ → Type ℓ
Action E S A = S → Result E A × S

module _ {ℓ} {E S A : Type ℓ} where
  unfoldable pub pure : A → Action E S A
  pure a s = (ok a, s)

  unfoldable pub raise : E → Action E S A
  raise e s = (err e, s)

  unfoldable pub lift : Result E A → Action E S A
  lift r s = (r, s)

module _ {ℓ} {E S A B : Type ℓ} where
  -- What follows a step, given what the step returned or raised.
  abbrev pub continue : Result E A → (A → Action E S B) → Action E S B
  continue (ok a) f s = f a s
  continue (err e) f s = (err e, s)

  infixl 5 ◌>>=◌ ◌>>◌
  unfoldable pub ◌>>=◌ : Action E S A → (A → Action E S B) → Action E S B
  unfolding pure raise lift
  ◌>>=◌ m f s = continue (m s).0 f (m s).1

  abbrev pub ◌>>◌ : Action E S A → Action E S B → Action E S B
  m >> n = m >>= λ _. n

  continue-eq-ok :
      (r : Result E A) (f : A → Action E S B) (t : S) {b : B} {s' : S}
      → continue r f t ≡ (ok b, s')
      → (a : A) × (r ≡ ok a) × (f a t ≡ (ok b, s'))
  continue-eq-ok (ok a) f t h = (a, refl, h)
  continue-eq-ok (err e) f t h = ground arith

  -- What does not touch the state leaves that of the step before it.
  pub continue_stays :
      (r : Result E A) (f : A → Action E S B) (s : S)
      → ((a : A) → (f a s).1 ≡ s)
      → (continue r f s).1 ≡ s
  continue_stays (ok a) f s h = h a
  continue_stays (err e) f s h = refl

  -- Inversion of a successful step.
  pub bind-eq-ok :
      (m : Action E S A) (f : A → Action E S B) (s : S) {b : B} {s' : S}
      → (m >>= f) s ≡ (ok b, s')
      → (a : A) × ((m s).0 ≡ ok a) × (f a (m s).1 ≡ (ok b, s'))
  unfolding ◌>>=◌
  bind-eq-ok m f s h = continue-eq-ok (m s).0 f (m s).1 h

-- `m` keeps `P`, whether it returns or raises.
pub record Keeps {ℓ κ} {E S A : Type ℓ} (P : S → Type κ) (m : Action E S A) : Type (ℓ ⊔ κ) where
  pub apply : (s : S) → P s → P (m s).1

module _ {ℓ κ} {E S A : Type ℓ} {P : S → Type κ} where
  pub pure-Keeps : (a : A) → Keeps {E = E} P (pure a)
  unfolding pure
  pure-Keeps a = record { apply = λ s h. h }

  pub lift-Keeps : (r : Result E A) → Keeps P (lift r)
  unfolding lift
  lift-Keeps r = record { apply = λ s h. h }

  pub raise-Keeps : (e : E) → Keeps {A = A} P (raise e)
  unfolding raise
  raise-Keeps e = record { apply = λ s h. h }

  pub if-Keeps :
      (b : Bool) (m n : Action E S A) → Keeps P m → Keeps P n → Keeps P (if b then m else n)
  if-Keeps true m n hm hn = hm
  if-Keeps false m n hm hn = hn

module _ {ℓ κ} {E S A B : Type ℓ} {P : S → Type κ} where
  continue-Keeps :
      (r : Result E A) (f : A → Action E S B) (s : S)
      → ((a : A) → Keeps P (f a))
      → P s
      → P (continue r f s).1
  continue-Keeps (ok a) f s h p = (h a).apply s p
  continue-Keeps (err e) f s h p = p

  pub bind-Keeps :
      (m : Action E S A) (f : A → Action E S B)
      → Keeps P m
      → ((a : A) → Keeps P (f a))
      → Keeps P (m >>= f)
  unfolding ◌>>=◌
  bind-Keeps m f h k = record { apply = λ s p. continue-Keeps (m s).0 f (m s).1 k (h.apply s p) }

pub ruleset keeps_rules = (pure-Keeps, lift-Keeps, raise-Keeps, if-Keeps, bind-Keeps)

-- A property of the state that a chain leaves: the rest may use what the first step returned.
module _ {ℓ κ} {E S A B : Type ℓ} (P : S → Type κ) where
  continue-After :
      (r : Result E A) (f : A → Action E S B) (s : S)
      → P s
      → ((a : A) → r ≡ ok a → P (f a s).1)
      → P (continue r f s).1
  continue-After (ok a) f s h k = k a refl
  continue-After (err e) f s h k = h

  pub bind-After :
      (m : Action E S A) (f : A → Action E S B) (s : S)
      → P (m s).1
      → ((a : A) → (m s).0 ≡ ok a → P (f a (m s).1).1)
      → P ((m >>= f) s).1
  unfolding ◌>>=◌
  bind-After m f s h k = continue-After (m s).0 f (m s).1 h k

-- Whatever `m` returns from `s`, and the state it leaves, have the property.
pub record Ensures {ℓ κ} {E S A : Type ℓ} (Q : A → S → Type κ) (m : Action E S A) (s : S)
    : Type (ℓ ⊔ κ) where
  pub apply : (a : A) (t : S) → m s ≡ (ok a, t) → Q a t

module _ {ℓ κ} {E S A B : Type ℓ} (Q : B → S → Type κ) where
  -- The rest may use what the first step returned, and from which state it went on.
  pub bind-Ensures :
      (m : Action E S A) (f : A → Action E S B) (s : S)
      → ((a : A) → (m s).0 ≡ ok a → Ensures Q (f a) (m s).1)
      → Ensures Q (m >>= f) s
  bind-Ensures m f s h = record {
    apply = λ b t e. let (a, r, e') = bind-eq-ok m f s e in (h a r).apply b t e';
  }

module _ {ℓ κ} {E S A : Type ℓ} (Q : A → S → Type κ) where
  pub pure-Ensures : (a : A) (s : S) → Q a s → Ensures {E = E} Q (pure a) s
  unfolding pure
  pure-Ensures a s q = record {
    apply = λ b t e. subst₂ Q (cc e) (ap (λ (x : Result E A × S). x.1) e) q;
  }

  pub if-Ensures :
      (b : Bool) (m n : Action E S A) (s : S)
      → (b ≡ true → Ensures Q m s)
      → (b ≡ false → Ensures Q n s)
      → Ensures Q (if b then m else n) s
  if-Ensures true m n s hm hn = hm refl
  if-Ensures false m n s hm hn = hn refl

pub Ensures-at {ℓ κ} :
    {E S A : Type ℓ} (Q : A → S → Type κ) (m : Action E S A) (s : S) {a : A}
    → Ensures Q m s
    → (m s).0 ≡ ok a
    → Q a (m s).1
Ensures-at Q m s {a} h e = h.apply a (m s).1 (λ i. (e i, (m s).1))
