-- ===== src/Common/Digits.antt =====
-- Decimal digits read back: what `strtoul(s, &end, 10)` takes of a text that starts with a digit,
-- and the reading of a printed number.
use Prim.Native.Nat.{ℕ, zero, suc, ◌+◌, ◌-◌, ◌*◌, ◌/◌, ◌%◌, ◌^◌, ◌<◌}
use mathlib.Core.Path.{◌≡◌, refl, ap, ◌∙◌}
use mathlib.Core.Bool.{Bool, true, false, ◌&&◌}
use mathlib.Core.Logic.{inl, inr}
use mathlib.Core.List.{[], ◌∷◌, ◌++◌, append_assoc}
use native.Mathlib.Omega.{arith}
use native.Mathlib.Numerals.{unary_clauses}
use photonbar.Common.Tests.{leb, ltb, ltb→lt, Bool-cases}
use photonbar.Common.Texts.{Bytes, decimal, decimal_fuel}

abbrev pub is_digit : ℕ → Bool
is_digit c = leb b'0' c && leb c b'9'

-- The number that the digits at the front make, behind those of `acc`, and the rest of the text.
unfoldable pub scan_digits : ℕ → Bytes → ℕ × Bytes
scan_digits acc [] = (acc, [])
scan_digits acc (c ∷ cs) = elim (is_digit c) [
  | true ↦ scan_digits (acc * 10 + (c - b'0')) cs
  | false ↦ (acc, c ∷ cs)
]

-- The text does not go on with a digit.
abbrev pub Ends : Bytes → Type 0
Ends [] = Unit
Ends (c ∷ cs) = is_digit c ≡ false

scan_digits-digit :
    (acc d : ℕ) (s : Bytes) → d < 10 → scan_digits acc ((48 + d) ∷ s) ≡ scan_digits (acc * 10 + d) s
unfolding scan_digits
scan_digits-digit acc d s h =
    let digit : is_digit (48 + d) ≡ true = ground arith in
    let same : acc * 10 + (48 + d - 48) ≡ acc * 10 + d = omega arith in
    rw (scan_digits, digit, same) refl

pub scan_digits_end : (acc : ℕ) (s : Bytes) → Ends s → scan_digits acc s ≡ (acc, s)
unfolding scan_digits
scan_digits_end acc [] h = refl
scan_digits_end acc (c ∷ cs) h = ground (arith, h)

scan_first : (n : ℕ) (s : Bytes) → n < 10 → scan_digits 0 ((48 + n) ∷ s) ≡ scan_digits n s
scan_first n s h =
    let same : 0 * 10 + n ≡ n = omega arith in
    scan_digits-digit 0 n s h ∙ ap (λ (m : ℕ). scan_digits m s) same

power_up : (f n : ℕ) → n < 10 ^ suc f → n / 10 < 10 ^ f
power_up f n h =
    let double : 10 ^ suc f ≡ 10 * 10 ^ f = simp unary_clauses (omega arith) in
    omega (arith, h, double)

scan_digits-decimal_fuel :
    (f n : ℕ) (s : Bytes)
    → n < 10 ^ suc f
    → scan_digits 0 (decimal_fuel (suc f) n ++ s) ≡ scan_digits n s
scan_digits-decimal_fuel zero n s h =
    let small : ltb n 10 ≡ true = ground (arith, h) in rw small (scan_first n s (ltb→lt n 10 small))
scan_digits-decimal_fuel (suc f) n s h = elim (Bool-cases (ltb n 10)) [
  | inl small ↦ rw small (scan_first n s (ltb→lt n 10 small))
  | inr large ↦
      let digit = scan_digits-digit (n / 10) (n % 10) s (omega arith) in
      let whole : n / 10 * 10 + n % 10 ≡ n = omega arith in
      rw (large, append_assoc)
        (scan_digits-decimal_fuel f (n / 10) ((48 + n % 10) ∷ s) (power_up (suc f) n h)
          ∙ digit
          ∙ ap (λ (m : ℕ). scan_digits m s) whole)
]

-- A printed number is read back, up to what follows it.
pub scan_digits-decimal :
    (n : ℕ) (s : Bytes) → n < 10 ^ 20 → scan_digits 0 (decimal n ++ s) ≡ scan_digits n s
scan_digits-decimal n s h = scan_digits-decimal_fuel 19 n s h

-- A printed number starts with a digit.
decimal_fuel-digit :
    (f n : ℕ)
    → n < 10 ^ suc f
    → (d : ℕ) × (t : Bytes) × (decimal_fuel (suc f) n ≡ (48 + d) ∷ t) × (d < 10)
decimal_fuel-digit zero n h =
    let small : ltb n 10 ≡ true = ground (arith, h) in (n, [], rw small refl, ltb→lt n 10 small)
decimal_fuel-digit (suc f) n h = elim (Bool-cases (ltb n 10)) [
  | inl small ↦ (n, [], rw small refl, ltb→lt n 10 small)
  | inr large ↦
      let (d, t, e, below) = decimal_fuel-digit f (n / 10) (power_up (suc f) n h) in
      (
        d,
        t ++ ((48 + n % 10) ∷ []),
        rw large (ap (λ (u : Bytes). u ++ ((48 + n % 10) ∷ [])) e),
        below,
      )
]

pub decimal-digit :
    (n : ℕ) → n < 10 ^ 20 → (d : ℕ) × (t : Bytes) × (decimal n ≡ (48 + d) ∷ t) × (d < 10)
decimal-digit n h = decimal_fuel-digit 19 n h

-- A text of digits that reads as a number.
abbrev pub Reads : Bytes → ℕ → Type 0
Reads t n =
    ((d : ℕ) × (u : Bytes) × (t ≡ (48 + d) ∷ u) × (d < 10))
    × ((s : Bytes) → Ends s → scan_digits 0 (t ++ s) ≡ (n, s))

pub decimal-Reads : (n : ℕ) → n < 18446744073709551616 → Reads (decimal n) n
decimal-Reads n h =
    let low : n < 10 ^ 20 = omega arith in
    (decimal-digit n low, λ s end. scan_digits-decimal n s low ∙ scan_digits_end n s end)
