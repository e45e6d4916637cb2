-- ===== src/Prelude/Texts.antt =====
-- Python's `str` and `bytes` as lists of code points (bytes), and their equality test.
use Prim.Native.Nat.{ℕ}
use Prim.Native.Char.{code}
use Prim.Native.String.{String}
use mathlib.Core.Path.{◌≡◌, refl}
use mathlib.Core.Logic.{◌↔◌}
use mathlib.Core.Bool.{Bool, true, false, ◌&&◌, ◌||◌}
use mathlib.Core.List.{List, [], ◌∷◌}
use native.Mathlib.Omega.{arith}
use syllva.Prelude.Tests.{◌==◌, ltb}

abbrev pub Text : Type 0
Text = List ℕ

abbrev pub codes : String → Text
codes String.[] = []
codes (String.◌∷◌ c s) = code c ∷ codes s

unfoldable pub teq : Text → Text → Bool
teq [] [] = true
teq [] (y ∷ ys) = false
teq (x ∷ xs) [] = false
teq (x ∷ xs) (y ∷ ys) = x == y && teq xs ys

pub teq_iff : (a b : Text) → (teq a b ≡ true) ↔ (a ≡ b)
unfolding teq
teq_iff [] [] = (λ _. refl, λ _. refl)
teq_iff [] (y ∷ ys) = ground arith
teq_iff (x ∷ xs) [] = ground arith
teq_iff (x ∷ xs) (y ∷ ys) = ground (arith, teq_iff xs ys)

pub teq_refl : (a : Text) → teq a a ≡ true
teq_refl a = (teq_iff a a).1 refl

-- The order of texts by their code points, which is that of their UTF-8 bytes.
unfoldable pub text_lt : Text → Text → Bool
text_lt [] [] = false
text_lt [] (y ∷ ys) = true
text_lt (x ∷ xs) [] = false
text_lt (x ∷ xs) (y ∷ ys) = ltb x y || (x == y && text_lt xs ys)
