-- ===== src/Prelude/Results.antt =====
-- Code that may raise returns a `Result`; `do` blocks pass an error on.
use mathlib.Core.Path.{◌≡◌, refl, sym}
use mathlib.Core.Bool.{Bool, true, false}
use mathlib.Core.Logic.{◌⊎◌, inl, inr}
use mathlib.Core.List.{List, [], ◌∷◌, map}
use ritebook.Prelude.Lists.{All}
use native.Mathlib.Omega.{arith}

pub data Result {ℓ} (E A : Type ℓ) : Type ℓ where
  ok : A → Result E A
  err : E → Result E A

-- `if failing: raise e`
abbrev pub raise_if {ℓ} : {E : Type ℓ} → Bool → E → Result E Unit
raise_if true e = err e
raise_if false e = ok tt

module _ {ℓ} {E A B : Type ℓ} where
  infixl 5 ◌>>=◌ ◌>>◌
  abbrev pub ◌>>=◌ : Result E A → (A → Result E B) → Result E B
  err e >>= rest = err e
  ok a >>= rest = rest a

  abbrev pub ◌>>◌ : Result E A → Result E B → Result E B
  first >> second = first >>= λ _. second

-- `except ValueError as err: raise wrap(err) from err`
abbrev pub catch {ℓ} : {E F A : Type ℓ} → Result E A → (E → F) → Result F A
catch (ok a) wrap = ok a
catch (err e) wrap = err (wrap e)

-- `tuple(f(x) for x in xs)`: the first error ends it.
module _ {ℓ} {E A B : Type ℓ} (f : A → Result E B) where
  unfoldable pub traverse : List A → Result E (List B)
  traverse [] = ok []
  traverse (x ∷ xs) = do y ← f x; ys ← traverse xs; ok (y ∷ ys)

pub >>=-eq-ok {ℓ} :
    {E A B : Type ℓ} (first : Result E A) (rest : A → Result E B) {final : B}
    → (first >>= rest) ≡ ok final
    → (x : A) × (first ≡ ok x) × (rest x ≡ ok final)
>>=-eq-ok (ok x) rest h = (x, refl, h)
>>=-eq-ok (err e) rest h = ground arith

pub Result-cases {ℓ} :
    {E A : Type ℓ} (r : Result E A) → ((a : A) × (r ≡ ok a)) ⊎ ((e : E) × (r ≡ err e))
Result-cases (ok a) = inl (a, refl)
Result-cases (err e) = inr (e, refl)

pub raise_if-eq-ok {ℓ} :
    {E : Type ℓ} (b : Bool) (e : E) {u : Unit} → raise_if b e ≡ ok u → b ≡ false
raise_if-eq-ok b e h = ground arith

pub catch-eq-ok {ℓ} :
    {E F A : Type ℓ} (r : Result E A) (wrap : E → F) {a : A} → catch r wrap ≡ ok a → r ≡ ok a
catch-eq-ok (ok b) wrap h = ground arith
catch-eq-ok (err e) wrap h = ground arith

-- What one function writes of each element, the other reads back.
module _ {ℓ} {E F A B : Type ℓ} (write : A → Result E B) (read : B → Result F A) where
  -- They agree on an element.
  abbrev pub ReadsBack : A → Type ℓ
  ReadsBack x = (y : B) → write x ≡ ok y → read y ≡ ok x

  pub traverse-traverse :
      (xs : List A) {ys : List B}
      → All ReadsBack xs
      → traverse write xs ≡ ok ys
      → traverse read ys ≡ ok xs
  unfolding traverse
  traverse-traverse [] {ys} h e = let same : [] ≡ ys = cc e in rw (sym same) refl
  traverse-traverse (x ∷ xs) {ys} h e =
      let (y, first, e1) = >>=-eq-ok (write x) _ e in
      let (zs, rest, e2) = >>=-eq-ok (traverse write xs) _ e1 in
      let same : y ∷ zs ≡ ys = cc e2 in rw (sym same, h.0 y first, traverse-traverse xs h.1 rest)

-- A function that succeeds on what each element is mapped to.
module _ {ℓ} {E A B C : Type ℓ} (write : A → B) (read : B → Result E C) (result : A → C) where
  pub traverse-map :
      (xs : List A)
      → All (λ x. read (write x) ≡ ok (result x)) xs
      → traverse read (map write xs) ≡ ok (map result xs)
  unfolding traverse
  traverse-map [] h = refl
  traverse-map (x ∷ xs) h = rw (h.0, traverse-map xs h.1)

module _ {ℓ} {E A B : Type ℓ} (f : A → Result E B) where
  -- A traversal that succeeds does so at each element.
  pub traverse-eq-ok :
      (xs : List A) {ys : List B} → traverse f xs ≡ ok ys → All (λ x. (y : B) × (f x ≡ ok y)) xs
  unfolding traverse
  traverse-eq-ok [] h = tt
  traverse-eq-ok (x ∷ xs) h =
      let (y, first, h1) = >>=-eq-ok (f x) _ h in
      let (ys, rest, h2) = >>=-eq-ok (traverse f xs) _ h1 in ((y, first), traverse-eq-ok xs rest)
