-- ===== src/Prelude/Decimal.antt =====
-- `str(n)` and `int(text)` for natural numbers, in decimal.
use syllva.Prelude.Tests.{◌==◌, if◌then◌else◌, leb, Bool-cases}
use syllva.Prelude.Texts.{Text}
use Prim.Native.Nat.{ℕ, zero, suc, ◌+◌, ◌*◌, ◌/◌, ◌%◌, ◌-◌, ◌≤◌, ◌<◌}
use mathlib.Core.Path.{◌≡◌, refl, ap, ◌∙◌, sym}
use mathlib.Core.List.{[], ◌∷◌, ◌++◌, append-nil, append_assoc}
use mathlib.Core.Logic.{inl, inr}
use mathlib.Core.Bool.{Bool, true, false, ◌&&◌, not}
use native.Mathlib.Omega.{arith}

-- The digits of `n` in front of `rest`. The fuel is more than the digits.
unfoldable pub digits : ℕ → ℕ → Text → Text
digits zero n rest = rest
digits (suc fuel) n rest =
    let more = digits fuel (n / 10) ((48 + n % 10) ∷ rest) in
    if n / 10 == 0 then (48 + n % 10) ∷ rest else more

unfoldable pub decimal : ℕ → Text
unfolding digits
decimal n = digits (suc n) n []

-- `int` of a text of digits, left to right.
unfoldable pub read_digits : ℕ → Text → ℕ
read_digits acc [] = acc
read_digits acc (c ∷ cs) = read_digits (acc * 10 + (c - 48)) cs

decimal_1204 : read_digits 0 (decimal 1204) ≡ 1204
unfolding decimal read_digits
decimal_1204 = refl

unfoldable pub all_digits : Text → Bool
all_digits [] = true
all_digits (c ∷ cs) = leb 48 c && leb c 57 && all_digits cs

-- No leading zero, and not empty: `[1-9][0-9]*` on a text of digits.
unfoldable pub is_number : Text → Bool
is_number [] = false
is_number (c ∷ cs) = not (c == 48)

digits-read :
    (fuel n : ℕ) (rest : Text) → n < fuel → read_digits 0 (digits fuel n rest) ≡ read_digits n rest
unfolding digits read_digits
digits-read zero n rest h = absurd (omega arith)
digits-read (suc fuel) n rest h = elim (Bool-cases (n / 10 == 0)) [
  | inl e ↦ rw e (ap (λ k. read_digits k rest) (ground arith))
  | inr e ↦ rw e (
      digits-read fuel (n / 10) ((48 + n % 10) ∷ rest) (ground arith)
      ∙ ap (λ k. read_digits k rest) (omega arith))
]

digits-digits :
    (fuel n : ℕ) (rest : Text) → all_digits rest ≡ true → all_digits (digits fuel n rest) ≡ true
unfolding digits all_digits
digits-digits zero n rest h = h
digits-digits (suc fuel) n rest h =
    ground (arith, digits-digits fuel (n / 10) ((48 + n % 10) ∷ rest))

digits-is_number :
    (fuel n : ℕ) (rest : Text) → 1 ≤ n → n < fuel → is_number (digits fuel n rest) ≡ true
unfolding digits is_number
digits-is_number zero n rest h k = absurd (omega arith)
digits-is_number (suc fuel) n rest h k =
    ground (arith, digits-is_number fuel (n / 10) ((48 + n % 10) ∷ rest))

pub decimal-read : (n : ℕ) → read_digits 0 (decimal n) ≡ n
unfolding decimal read_digits
decimal-read n = digits-read (suc n) n [] (omega arith)

pub decimal-digits : (n : ℕ) → all_digits (decimal n) ≡ true
unfolding decimal all_digits
decimal-digits n = digits-digits (suc n) n [] refl

pub decimal-is_number : (n : ℕ) → 1 ≤ n → is_number (decimal n) ≡ true
unfolding decimal
decimal-is_number n h = digits-is_number (suc n) n [] h (omega arith)

digits-append : (f n : ℕ) (rest : Text) → digits f n rest ≡ digits f n [] ++ rest
unfolding digits
digits-append zero n rest = refl
digits-append (suc f) n rest = elim (Bool-cases (n / 10 == 0)) [
  | inl e ↦ rw e refl
  | inr e ↦ rw e (
      digits-append f (n / 10) ((48 + n % 10) ∷ rest)
      ∙ sym (append_assoc (digits f (n / 10) []) ((48 + n % 10) ∷ []) rest)
      ∙ ap (λ t. t ++ rest) (sym (digits-append f (n / 10) ((48 + n % 10) ∷ []))))
]

digits-fuel : (f g n : ℕ) (rest : Text) → n < f → n < g → digits f n rest ≡ digits g n rest
unfolding digits
digits-fuel zero g n rest h k = absurd (omega arith)
digits-fuel (suc f) zero n rest h k = absurd (omega arith)
digits-fuel (suc f) (suc g) n rest h k =
    ground (arith, digits-fuel f g (n / 10) ((48 + n % 10) ∷ rest))

digits-start : (m : ℕ) → 10 ≤ m → digits (suc m) m [] ≡ digits m (m / 10) ((48 + m % 10) ∷ [])
unfolding digits
digits-start m h = ground arith

decimal-step : (m : ℕ) → 10 ≤ m → decimal m ≡ decimal (m / 10) ++ (48 + m % 10) ∷ []
unfolding decimal
decimal-step m h =
    digits-start m h
    ∙ digits-fuel m (suc (m / 10)) (m / 10) ((48 + m % 10) ∷ []) (omega arith) (omega arith)
    ∙ digits-append (suc (m / 10)) (m / 10) ((48 + m % 10) ∷ [])

decimal-digit :
    (n c : ℕ)
    → 1 ≤ n
    → leb 48 c && leb c 57 ≡ true
    → decimal (n * 10 + (c - 48)) ≡ decimal n ++ c ∷ []
decimal-digit n c h k = ground (arith, decimal-step (n * 10 + (c - 48)))

decimal-small : (c : ℕ) → leb 48 c && leb c 57 ≡ true → decimal (c - 48) ≡ c ∷ []
unfolding decimal digits
decimal-small c k = ground arith

decimal-read_digits :
    (n : ℕ) (ds : Text)
    → 1 ≤ n
    → all_digits ds ≡ true
    → decimal (read_digits n ds) ≡ decimal n ++ ds
unfolding read_digits all_digits
decimal-read_digits n [] h k = sym (append-nil (decimal n))
decimal-read_digits n (c ∷ ds) h k = ground (
  arith,
  decimal-read_digits (n * 10 + (c - 48)) ds,
  decimal-digit n c h,
  append_assoc (decimal n) (c ∷ []) ds,
)

-- A number without a leading zero is written as it was read.
pub decimal-read_number :
    (ds : Text) → is_number ds ≡ true → all_digits ds ≡ true → decimal (read_digits 0 ds) ≡ ds
unfolding read_digits all_digits is_number
decimal-read_number [] h k = ground arith
decimal-read_number (c ∷ ds) h k = ground (arith, decimal-read_digits (c - 48) ds, decimal-small c)
