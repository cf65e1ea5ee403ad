-- ===== src/Tests/Texts.antt =====
-- Colours and characters (color.h and bar.h) on concrete texts.
use photonbar.Common.{none, true, Option, ◌++◌, ℕ, ◌≡◌, refl, some, [], ◌∷◌, arith}
use photonbar.Common.{◌==◌, if◌then◌else◌, take, All}
use photonbar.Common.Int.{ℤ, pos}
use photonbar.BarElement.{BarElement, new_element}
use photonbar.Content.{parse_element_content}
use photonbar.Content.RoundTrip.{IsText, encode_text, parse_element_content-encode}
use photonbar.Color.{Color, parse_color}
use photonbar.Color.Print.{xft_color_name}
use photonbar.Color.Parse.{IsColor, parse_color-xft_color_name}
use photonbar.Utf8.{Utf8Result, decode_utf8_char}
use photonbar.Utf8.RoundTrip.{decode_utf8_char-encode}

abbrev violet : Color
violet = record { b = 0xff; g = 0xaa; r = 0xe0; a = 0x80 }

abbrev black : Color
black = record { b = 0; g = 0; r = 0; a = 255 }

violet-IsColor : IsColor violet
violet-IsColor = ground arith

parse_color-xft_color_name_example :
    (parse_color (some (xft_color_name violet)) black).color ≡ record violet { a = 255 }
parse_color-xft_color_name_example = parse_color-xft_color_name violet black violet-IsColor

decode_utf8_char-encode_example :
    decode_utf8_char (0xf3 ∷ 0xb0 ∷ 0x82 ∷ 0x81 ∷ b'x' ∷ [])
    ≡ some (record { ucs = 0xf0081; bytes_consumed = 4 })
decode_utf8_char-encode_example = decode_utf8_char-encode 0xf0081 (b'x' ∷ []) (omega arith)

abbrev two : Utf8Result
two = record { ucs = 0xe9; bytes_consumed = 2 }

-- No font draws the character 0xe9.
abbrev glyph : ℕ → Option ℤ
glyph c = if c == 0xe9 then none else some (pos 9)

abbrev cafe : BarElement ℕ
cafe = record new_element {
  content = encode_text (0x63 ∷ 0xe9 ∷ []) ++ (0 ∷ 7 ∷ []);
  dirty_content = true;
}

cafe-IsText : All IsText (0x63 ∷ 0xe9 ∷ [])
cafe-IsText = (
  record { point = omega arith; nonzero = λ e. ground (arith, e); inline = λ e. ground (arith, e) },
  (
    record {
      point = omega arith;
      nonzero = λ e. ground (arith, e);
      inline = λ e. ground (arith, e);
    },
    tt,
  ),
)

parse_element_content-encode_example :
    (e' : BarElement ℕ) × (parse_element_content glyph cafe ≡ some e')
    × (take e'.ucs_content_len e'.ucs_content ≡ (0x63 ∷ b'?' ∷ []))
    × (e'.ucs_content_len ≡ 2)
    × (e'.width ≡ 9)
    × (parse_element_content glyph e' ≡ some e')
parse_element_content-encode_example =
    parse_element_content-encode glyph (0x63 ∷ 0xe9 ∷ []) (7 ∷ []) cafe cafe-IsText (omega arith)
      refl refl
