-- ===== src/Color/Parse.antt =====
-- What `Color::parse_color` of color.h returns, over all texts.
use photonbar.Common.{
  ℕ, ◌+◌, ◌*◌, ◌<◌, ◌≡◌, refl, Option, none, some, [], ◌∷◌, map, Bytes, arith, ◌⊎◌, All, ◌∙◌, sym,
  inl,
}
use photonbar.Color.{Color, value, of_value, by_length, premultiply, parse_color, parse_hex}
use photonbar.Color.Print.{hex_digit, xft_color_name, IsDigit, strtoul16-hex}

pub record IsColor (c : Color) : Type 0 where
  pub b_byte : c.b < 256
  pub g_byte : c.g < 256
  pub r_byte : c.r < 256
  pub a_byte : c.a < 256

-- The four bytes and the number `v` are two views of one colour.
value-of_value : (v : ℕ) → v < 4294967296 → value (of_value v) ≡ v
unfolding value of_value
value-of_value v h = omega arith

of_value-value : (c : Color) → IsColor c → of_value (value c) ≡ c
unfolding value of_value
of_value-value c h = ground arith

-- Whatever the text is, the result is the default or an opaque colour of four bytes.
parse_color-opaque :
    (s : Option Bytes) (def : Color)
    → let c = (parse_color s def).color in (c ≡ def) ⊎ ((c.a ≡ 255) × IsColor c)
unfolding parse_color
parse_color-opaque none def = inl refl
parse_color-opaque (some []) def = inl refl
parse_color-opaque (some (c ∷ digits)) def = ground arith

-- With an opaque alpha the multiplication changes nothing, so it keeps the three components.
premultiply_lem : (c : Color) → IsColor c → premultiply c ≡ record c { a = 255 }
unfolding premultiply
premultiply_lem c h = ground arith

parse_hex_six :
    (p q r s t u : ℕ) (def : Color)
    → All IsDigit (p ∷ q ∷ r ∷ s ∷ t ∷ u ∷ [])
    → (parse_hex (map hex_digit (p ∷ q ∷ r ∷ s ∷ t ∷ u ∷ [])) def).color
      ≡ record { b = t * 16 + u; g = r * 16 + s; r = p * 16 + q; a = 255 }
unfolding parse_hex by_length premultiply
parse_hex_six p q r s t u def h =
    rw (strtoul16-hex p (q ∷ r ∷ s ∷ t ∷ u ∷ []) h (omega arith)) (ground arith)

parse_hex_three :
    (p q r : ℕ) (def : Color)
    → All IsDigit (p ∷ q ∷ r ∷ [])
    → (parse_hex (map hex_digit (p ∷ q ∷ r ∷ [])) def).color
      ≡ record { b = r * 16 + r; g = q * 16 + q; r = p * 16 + p; a = 255 }
unfolding parse_hex by_length premultiply
parse_hex_three p q r def h = rw (strtoul16-hex p (q ∷ r ∷ []) h (omega arith)) (ground arith)

-- The name that bar.h prints for a colour reads back as that colour, made opaque.
pub parse_color-xft_color_name :
    (c def : Color)
    → IsColor c
    → (parse_color (some (xft_color_name c)) def).color ≡ record c { a = 255 }
unfolding parse_color xft_color_name of_value
parse_color-xft_color_name c def h = parse_hex_six _ _ _ _ _ _ def (omega arith) ∙ ground arith

-- `#rgb` stands for `#rrggbb`.
parse_color_short :
    (r g b : ℕ) (def : Color)
    → All IsDigit (r ∷ g ∷ b ∷ [])
    → (parse_color (some (b'#' ∷ map hex_digit (r ∷ g ∷ b ∷ []))) def).color
      ≡ (parse_color (some (b'#' ∷ map hex_digit (r ∷ r ∷ g ∷ g ∷ b ∷ b ∷ []))) def).color
unfolding parse_color
parse_color_short r g b def h =
    parse_hex_three r g b def h ∙ sym (parse_hex_six r r g g b b def (omega arith))
