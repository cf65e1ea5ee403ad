-- ===== src/Ping/Text.antt =====
-- The text of /proc/net/dev, and what the scanning functions of modules/ping.h do on it.
use photonbar.Common.{
  ℕ, zero, suc, ◌+◌, ◌%◌, ◌<◌, ◌≡◌, ◌≢◌, ◌∙◌, refl, ap, arith, map, true, List, [], ◌∷◌, ◌++◌,
  Bytes, ascii, bytes_eq, decimal, decimal_fuel, ltb, ◌/◌, length, Bool-cases, inl, inr, All, ==_ne,
  ==_refl,
}
use native.Mathlib.Nat.{mod-eq_of_lt}
use photonbar.Common.Digits.{is_digit, Ends, Reads, decimal-Reads}
use photonbar.Ping.{skip_to_digit, fast_atoull, after_char, skip_blanks, is_loopback, skip_numbers}

-- An interface of the file: its name, the first nine numbers, and the rest of the line.
pub record Line : Type 0 where
  pub indent : ℕ
  pub name : Bytes
  pub recv : ℕ
  pub between : List ℕ
  pub sent : ℕ
  pub tail : Bytes

-- Texts, each behind a blank, in front of a text.
abbrev pub blanked : List Bytes → Bytes → Bytes
blanked [] s = s
blanked (t ∷ ts) s = 32 ∷ (t ++ blanked ts s)

abbrev pub blanks : ℕ → Bytes → Bytes
blanks zero s = s
blanks (suc n) s = 32 ∷ blanks n s

-- What follows the name in a line, and the line, both in front of a text.
abbrev pub columns : Line → Bytes → Bytes
columns l s =
    32
    ∷ (decimal l.recv
        ++ blanked (map decimal l.between) (32 ∷ (decimal l.sent ++ (l.tail ++ (10 ∷ s)))))

abbrev pub line_text : Line → Bytes → Bytes
line_text l s = blanks l.indent (l.name ++ (b':' ∷ columns l s))

abbrev pub Without : ℕ → Bytes → Type 0
Without k [] = Unit
Without k (c ∷ cs) = (c ≢ k) × Without k cs

abbrev pub Small : ℕ → Type 0
Small n = n < 18446744073709551616

pub after_char-append : (k : ℕ) (a s : Bytes) → Without k a → after_char k (a ++ (k ∷ s)) ≡ s
unfolding after_char
after_char-append k [] s h = rw (after_char, ==_refl k) refl
after_char-append k (c ∷ cs) s h = rw (after_char, ==_ne c k h.0) (after_char-append k cs s h.1)

skip_to_digit-digit :
    (t s u : Bytes) (d : ℕ) → t ≡ (48 + d) ∷ u → d < 10 → skip_to_digit (32 ∷ (t ++ s)) ≡ t ++ s
unfolding skip_to_digit
skip_to_digit-digit t s u d e digit =
    let here : is_digit (48 + d) ≡ true = ground arith in rw (e, skip_to_digit, here) refl

-- A number behind a blank is read, up to what follows it.
pub fast_atoull-Reads :
    (n : ℕ) (t s : Bytes) → Reads t n → Small n → Ends s → fast_atoull (32 ∷ (t ++ s)) ≡ (n, s)
unfolding fast_atoull
fast_atoull-Reads n t s ((d, u, e, digit), reads) h end =
    let start = skip_to_digit-digit t s u d e digit in
    rw (start, reads s end) (ap (λ (m : ℕ). (m, s)) (mod-eq_of_lt h))

-- Texts that read as numbers.
abbrev pub AllRead : List Bytes → List ℕ → Type 0
AllRead [] [] = Unit
AllRead (t ∷ ts) (n ∷ ns) = Reads t n × Small n × AllRead ts ns
AllRead _ _ = ⊥

pub blanked-Ends : (ts : List Bytes) (s : Bytes) → Ends s → Ends (blanked ts s)
blanked-Ends [] s h = h
blanked-Ends (t ∷ ts) s h = refl

pub skip_numbers-blanked :
    (ts : List Bytes) (ns : List ℕ) (s : Bytes)
    → AllRead ts ns
    → Ends s
    → skip_numbers (length ns) (blanked ts s) ≡ s
unfolding skip_numbers
skip_numbers-blanked [] [] s h end = refl
skip_numbers-blanked (t ∷ ts) (n ∷ ns) s (reads, small, more) end =
    rw (skip_numbers, fast_atoull-Reads n t (blanked ts s) reads small (blanked-Ends ts s end))
      (skip_numbers-blanked ts ns s more end)
skip_numbers-blanked [] (n ∷ ns) s h end = absurd h
skip_numbers-blanked (t ∷ ts) [] s h end = absurd h

pub decimals-AllRead : (ns : List ℕ) → All Small ns → AllRead (map decimal ns) ns
decimals-AllRead [] h = tt
decimals-AllRead (n ∷ ns) h = (decimal-Reads n h.0, h.0, decimals-AllRead ns h.1)

pub tail-Ends : (tail s : Bytes) → Ends tail → Ends (tail ++ (10 ∷ s))
tail-Ends [] s h = refl
tail-Ends (c ∷ cs) s h = h

pub is_loopback-name :
    (name s : Bytes)
    → Without b':' name
    → is_loopback (name ++ (b':' ∷ s)) ≡ bytes_eq (ascii "lo") name
is_loopback-name [] s h = ground arith
is_loopback-name (a ∷ []) s h = ground arith
is_loopback-name (a ∷ b ∷ []) s h = ground arith
is_loopback-name (a ∷ b ∷ c ∷ cs) s h = ground (arith, h)

pub skip_blanks-name :
    (n : ℕ) (name s : Bytes)
    → Without 32 name
    → skip_blanks (blanks n (name ++ (b':' ∷ s))) ≡ name ++ (b':' ∷ s)
unfolding skip_blanks
skip_blanks-name (suc n) name s h = skip_blanks-name n name s h
skip_blanks-name zero [] s h = refl
skip_blanks-name zero (c ∷ cs) s h = rw (skip_blanks, ==_ne c 32 h.0) refl

pub after_char-through :
    (k : ℕ) (a s : Bytes) → Without k a → after_char k (a ++ s) ≡ after_char k s
unfolding after_char
after_char-through k [] s h = refl
after_char-through k (c ∷ cs) s h = rw (after_char, ==_ne c k h.0) (after_char-through k cs s h.1)

Without-append : (k : ℕ) (a b : Bytes) → Without k a → Without k b → Without k (a ++ b)
Without-append k [] b h g = g
Without-append k (c ∷ cs) b h g = (h.0, Without-append k cs b h.1 g)

pub decimal_fuel-Without : (f n : ℕ) → Without 10 (decimal_fuel f n)
decimal_fuel-Without zero n = tt
decimal_fuel-Without (suc f) n = elim (Bool-cases (ltb n 10)) [
  | inl small ↦ rw small (omega arith, tt)
  | inr large ↦ rw large (
      Without-append 10 (decimal_fuel f (n / 10)) ((48 + n % 10) ∷ [])
        (decimal_fuel-Without f (n / 10)) (omega arith, tt))
]

pub blanked-newline :
    (ns : List ℕ) (s : Bytes) → after_char 10 (blanked (map decimal ns) s) ≡ after_char 10 s
unfolding after_char
blanked-newline [] s = refl
blanked-newline (n ∷ ns) s =
    after_char-through 10 (decimal n) (blanked (map decimal ns) s) (decimal_fuel-Without 20 n)
    ∙ blanked-newline ns s

pub name_cons : (name s : Bytes) → (c : ℕ) × (cs : Bytes) × (name ++ (b':' ∷ s) ≡ c ∷ cs)
name_cons [] s = (_, _, refl)
name_cons (c ∷ cs) s = (_, _, refl)
