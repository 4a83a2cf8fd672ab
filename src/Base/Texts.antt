-- ===== src/Base/Texts.antt =====
-- Equality of texts, which are lists of characters' codes.
use Prim.Native.Nat.{ℕ}
use mathlib.Core.Path.{◌≡◌, refl}
use mathlib.Core.Bool.{Bool, true, false, ◌&&◌}
use mathlib.Core.List.{List, [], ◌∷◌}
use native.Mathlib.Omega.{arith}
use agentchains.Base.Tests.{◌==◌, ==→eq, ==_self, and_left, and_right}

abbrev pub Text : Type 0
Text = List ℕ

abbrev pub same_text : Text → Text → Bool
same_text [] [] = true
same_text (x ∷ xs) (y ∷ ys) = (x == y) && same_text xs ys
same_text _ _ = false

pub same_text_self : (t : Text) → same_text t t ≡ true
same_text_self [] = refl
same_text_self (x ∷ xs) = rw (==_self x, same_text_self xs) refl

pub same_text→eq : (s t : Text) → same_text s t ≡ true → s ≡ t
same_text→eq [] [] h = refl
same_text→eq [] (y ∷ ys) h = absurd (ground (arith, h))
same_text→eq (x ∷ xs) [] h = absurd (ground (arith, h))
same_text→eq (x ∷ xs) (y ∷ ys) h =
    let e = ==→eq x y (and_left _ _ h) in let es = same_text→eq xs ys (and_right (x == y) _ h) in cc
