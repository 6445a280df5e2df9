-- ===== src/Prelude/Order.antt =====
-- Python's order on texts: lexicographic by code points.
use ritebook.Prelude.Tests.{ltb, nat_beq}
use Prim.Native.Nat.{ℕ}
use mathlib.Core.Path.{◌≡◌, refl}
use mathlib.Core.Bool.{Bool, true, false, ◌&&◌, ◌||◌}
use mathlib.Core.List.{List, [], ◌∷◌}
use native.Mathlib.Omega.{arith}

-- a <= b
unfoldable pub text_leb : List ℕ → List ℕ → Bool
text_leb [] b = true
text_leb (x ∷ a) [] = false
text_leb (x ∷ a) (y ∷ b) = ltb x y || nat_beq x y && text_leb a b

pub text_leb_total : (a b : List ℕ) → (text_leb a b || text_leb b a) ≡ true
unfolding text_leb
text_leb_total [] b = refl
text_leb_total (x ∷ a) [] = refl
text_leb_total (x ∷ a) (y ∷ b) = ground (arith, text_leb_total a b)

pub text_leb_trans :
    (a b c : List ℕ) → text_leb a b ≡ true → text_leb b c ≡ true → text_leb a c ≡ true
unfolding text_leb
text_leb_trans [] b c h k = refl
text_leb_trans (x ∷ a) [] c h k = ground arith
text_leb_trans (x ∷ a) (y ∷ b) [] h k = ground arith
text_leb_trans (x ∷ a) (y ∷ b) (z ∷ c) h k = ground (arith, text_leb_trans a b c)
