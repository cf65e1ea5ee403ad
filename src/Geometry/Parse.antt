-- ===== src/Geometry/Parse.antt =====
-- `parseGeometryString` (bar.h): it ends on every string.
use photonbar.Common.{
  ℕ, zero, suc, ◌+◌, ◌*◌, ◌-◌, ◌<◌, ◌≤◌, ◌≡◌, refl, arith, Bool, true, false, Option, none, some,
  List, [], ◌∷◌, leb, Bool-cases, inl, inr, Bytes, length,
}
use photonbar.Common.Int.{ℤ}
use photonbar.Common.Digits.{is_digit, scan_digits}
use photonbar.Geometry.{
  Turn, number_field, geometry_turn, geometry_loop, skip_equals, parse_geometry_string, ulong_mod,
}

scan_digits-length : (acc : ℕ) (s : Bytes) → length (scan_digits acc s).1 ≤ length s
unfolding scan_digits
scan_digits-length acc [] = omega arith
scan_digits-length acc (c ∷ cs) = elim (Bool-cases (is_digit c)) [
  | inl digit ↦
      let ih = scan_digits-length (acc * 10 + (c - 48)) cs in
      rw (scan_digits, digit) (omega (arith, ih))
  | inr other ↦ rw (scan_digits, other) (omega arith)
]

-- What a turn leaves is shorter than what it was given.
abbrev Shorter : Bytes → Turn → Type 0
Shorter s (Turn.done ok out) = Unit
Shorter s (Turn.go rest j out) = length rest < length s

scanned_shorter :
    (c : ℕ) (cs : Bytes) → is_digit c ≡ true → length (scan_digits 0 (c ∷ cs)).1 < suc (length cs)
unfolding scan_digits
scanned_shorter c cs digit =
    let ih = scan_digits-length (0 * 10 + (c - 48)) cs in
    rw (scan_digits, digit) (omega (arith, ih))

number_field-Shorter :
    (c : ℕ) (cs : Bytes) (i : ℕ) (tmp : List ℤ)
    → is_digit c ≡ true
    → Shorter (c ∷ cs) (number_field (c ∷ cs) i tmp)
unfolding number_field
number_field-Shorter c cs i tmp digit =
    elim (Bool-cases (leb ulong_mod (scan_digits 0 (c ∷ cs)).0)) [
      | inl large ↦ rw large tt
      | inr small ↦ rw small (scanned_shorter c cs digit)
    ]

geometry_turn-Shorter : (s : Bytes) (i : ℕ) (tmp : List ℤ) → Shorter s (geometry_turn s i tmp)
unfolding geometry_turn
geometry_turn-Shorter [] i tmp = tt
geometry_turn-Shorter (c ∷ cs) i tmp = elim (Bool-cases (is_digit c)) [
  | inl digit ↦ let here = number_field-Shorter c cs i tmp digit in rw digit (ground (arith, here))
  | inr other ↦ rw other (ground arith)
]

ends_turn :
    (f : ℕ) (turn : Turn) (s : Bytes)
    → Shorter s turn
    → length s < suc f
    → ((rest : Bytes) (j : ℕ) (out : List ℤ)
        → length rest < f
        → (r : Bool × List ℤ) × (geometry_loop f rest j out ≡ some r))
    → (r : Bool × List ℤ) × (elim turn as (λ _. Option (Bool × List ℤ)) [
      | Turn.done ok out ↦ some (ok, out)
      | Turn.go rest j out ↦ geometry_loop f rest j out
    ]
        ≡ some r)
ends_turn f (Turn.done ok out) s shorter h ih = ((ok, out), refl)
ends_turn f (Turn.go rest j out) s shorter h ih = ih rest j out (omega arith)

geometry_loop_ends :
    (f : ℕ) (s : Bytes) (i : ℕ) (tmp : List ℤ)
    → length s < f
    → (r : Bool × List ℤ) × (geometry_loop f s i tmp ≡ some r)
unfolding geometry_loop
geometry_loop_ends zero s i tmp h = absurd (omega (arith, h))
geometry_loop_ends (suc f) s i tmp h =
    ends_turn f (geometry_turn s i tmp) s (geometry_turn-Shorter s i tmp) h
      (λ rest j out below. geometry_loop_ends f rest j out below)

skip_equals-length : (s : Bytes) → length (skip_equals s) ≤ length s
skip_equals-length [] = omega arith
skip_equals-length (c ∷ cs) = ground arith

-- The parser returns on every string, and on a null pointer.
parse_geometry_string-ends :
    (s : Option Bytes) (tmp : List ℤ) → (r : Bool × List ℤ) × (parse_geometry_string s tmp ≡ some r)
unfolding parse_geometry_string
parse_geometry_string-ends none tmp = ((false, tmp), refl)
parse_geometry_string-ends (some []) tmp = ((false, tmp), refl)
parse_geometry_string-ends (some (c ∷ cs)) tmp =
    geometry_loop_ends (suc (length (c ∷ cs))) (skip_equals (c ∷ cs)) 0 tmp
      (omega (arith, skip_equals-length (c ∷ cs)))
