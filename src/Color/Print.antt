-- ===== src/Color/Print.antt =====
-- The name of the foreground colour that `updateGc` and `init` of bar.h give to Xft, `#%06X` of
-- the low 24 bits, and what `strtoul` reads of hexadecimal digits printed so.
use photonbar.Common.{
  ℕ, suc, ◌+◌, ◌*◌, ◌/◌, ◌%◌, ◌<◌, ◌≡◌, refl, some, List, [], ◌∷◌, map, ltb, false, if◌then◌else◌,
  Bytes, arith, length, All, ap,
}
use photonbar.Color.{Color, value}
use photonbar.Color.Strtoul.{
  strtoul16, hex_value, skip_spaces, skip_sign, skip_prefix, scan_hex, ulong_mod,
}

unfoldable pub hex_digit : ℕ → ℕ
hex_digit d = if ltb d 10 then 48 + d else 55 + d

-- `%06X` of a number below 2 ^ 24.
unfoldable pub hex6 : ℕ → List ℕ
hex6 n =
    n / 1048576 % 16 ∷ n / 65536 % 16 ∷ n / 4096 % 16 ∷ n / 256 % 16 ∷ n / 16 % 16 ∷ n % 16 ∷ []

unfoldable pub xft_color_name : Color → Bytes
unfolding hex6 hex_digit value
xft_color_name c = b'#' ∷ map hex_digit (hex6 (value c % 16777216))

-- The number that digits stand for, most significant first, behind those of `acc`.
abbrev pub of_digits : ℕ → List ℕ → ℕ
of_digits acc [] = acc
of_digits acc (d ∷ ds) = of_digits (acc * 16 + d) ds

abbrev pub IsDigit : ℕ → Type 0
IsDigit d = d < 16

hex_value-hex_digit : (d : ℕ) → IsDigit d → hex_value (hex_digit d) ≡ some d
unfolding hex_value hex_digit
hex_value-hex_digit d h = ground arith

scan_hex-map :
    (acc : ℕ) (ds : List ℕ)
    → All IsDigit ds
    → scan_hex acc (map hex_digit ds) ≡ (of_digits acc ds, [])
unfolding scan_hex
scan_hex-map acc [] h = refl
scan_hex-map acc (d ∷ ds) h =
    rw (hex_value-hex_digit d h.0, scan_hex) (scan_hex-map (acc * 16 + d) ds h.1)

skip_spaces-hex : (d : ℕ) (s : Bytes) → IsDigit d → skip_spaces (hex_digit d ∷ s) ≡ hex_digit d ∷ s
unfolding skip_spaces hex_digit
skip_spaces-hex d s h = ground arith

skip_sign-hex :
    (d : ℕ) (s : Bytes) → IsDigit d → skip_sign (hex_digit d ∷ s) ≡ (false, hex_digit d ∷ s)
unfolding skip_sign hex_digit
skip_sign-hex d s h = ground arith

skip_prefix-hex : (ds : List ℕ) → All IsDigit ds → skip_prefix (map hex_digit ds) ≡ map hex_digit ds
unfolding skip_prefix hex_digit
skip_prefix-hex [] h = refl
skip_prefix-hex (a ∷ []) h = refl
skip_prefix-hex (a ∷ b ∷ []) h = refl
skip_prefix-hex (a ∷ b ∷ c ∷ ds) h = ground arith

length-hex : (ds : List ℕ) → length (map hex_digit ds) ≡ length ds
length-hex [] = refl
length-hex (d ∷ ds) = ap suc (length-hex ds)

-- `strtoul` takes a text of hexadecimal digits whole.
pub strtoul16-hex :
    (d : ℕ) (ds : List ℕ)
    → All IsDigit (d ∷ ds)
    → of_digits 0 (d ∷ ds) < ulong_mod
    → strtoul16 (map hex_digit (d ∷ ds))
      ≡ record { number = of_digits 0 (d ∷ ds); consumed = length (d ∷ ds); overflow = false }
unfolding strtoul16
strtoul16-hex d ds h small = ground (
  arith,
  skip_spaces-hex d (map hex_digit ds) h.0,
  skip_sign-hex d (map hex_digit ds) h.0,
  skip_prefix-hex (d ∷ ds) h,
  scan_hex-map 0 (d ∷ ds) h,
  length-hex ds,
)
