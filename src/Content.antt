-- ===== src/Content.antt =====
-- bar.h, `parseElementContent`: the characters of an element and their widths. The font that
-- `selectDrawableFont` chooses for a character and the width that `getUtf8CharWidth` reads there
-- come from Xft and are the parameter `glyph`: `none` where no font draws the character. A read
-- behind the end of `content` is `none`.
pub mod RoundTrip
use photonbar.Common.{
  ℕ, zero, suc, ◌+◌, ◌%◌, ◌-◌, Bool, true, false, not, ◌||◌, Option, none, some, List, [], ◌∷◌,
  ◌++◌, ◌==◌, if◌then◌else◌, Bytes, length, drop,
}
use photonbar.Common.Int.{ℤ, pos, negsuc}
use photonbar.BarElement.{BarElement, content_max_len}
use photonbar.Utf8.{Utf8Result, decode_utf8_char}

-- The int to uint8_t conversion.
abbrev pub to_uint8 : ℤ → ℕ
to_uint8 (pos n) = n % 256
to_uint8 (negsuc n) = (256 - suc n % 256) % 256

-- What the loop stores, and whether it met the end of the text.
pub record Chars : Type 0 where
  pub ucs : List ℕ
  pub widths : List ℕ
  pub ended : Bool

abbrev pub sum : List ℕ → ℕ
sum [] = 0
sum (w ∷ ws) = w + sum ws

module _ (glyph : ℕ → Option ℤ) where
  -- A character that no font draws becomes a question mark, of width 0.
  abbrev pub drawn : ℕ → ℕ
  drawn c = elim (glyph c) [ none ↦ b'?' | some w ↦ c ]

  abbrev pub char_width : ℕ → ℕ
  char_width c = elim (glyph c) [ none ↦ 0 | some w ↦ to_uint8 w ]

  -- The loop, with the number of rounds it has left.
  unfoldable pub parse_chars : ℕ → Bytes → Option Chars
  parse_chars zero s = some (record { ucs = []; widths = []; ended = false })
  parse_chars (suc n) [] = none
  parse_chars (suc n) (c ∷ s) =
      if c == 0 || c == 10
      then some (record { ucs = []; widths = []; ended = true })
      else elim (decode_utf8_char (c ∷ s)) [
        | none ↦ none
        | some r ↦ elim (parse_chars n (drop r.bytes_consumed (c ∷ s))) [
          | none ↦ none
          | some rest ↦ some (record {
            ucs = drawn r.ucs ∷ rest.ucs;
            widths = char_width r.ucs ∷ rest.widths;
            ended = rest.ended;
          })
        ]
      ]

  -- The buffers keep what the loop does not overwrite.
  unfoldable pub store_chars : {A : Type 0} → Chars → BarElement A → BarElement A
  store_chars k e =
      let n = length k.ucs in
      record e {
        ucs_content =
            k.ucs ++ (if k.ended then 0 ∷ drop (n + 1) e.ucs_content else drop n e.ucs_content);
        ucs_content_char_widths = k.widths ++ drop n e.ucs_content_char_widths;
        ucs_content_len = if k.ended then n else e.ucs_content_len;
        width = sum k.widths % 65536;
        dirty_content = false;
      }

  unfoldable pub parse_element_content : {A : Type 0} → BarElement A → Option (BarElement A)
  parse_element_content e =
      if not e.dirty_content then some e else elim (parse_chars content_max_len e.content) [
        | none ↦ none
        | some k ↦ some (store_chars k e)
      ]
