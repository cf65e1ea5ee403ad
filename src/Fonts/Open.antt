-- ===== src/Fonts/Open.antt =====
-- bar.h, `fontLoad`: the font that it makes from the answers of the X server and of Xft.
use photonbar.Common.{ℕ, ◌*◌, Bool, true, false, Option, none, some, List, [], ◌∷◌, get_or}
use Prim.Native.Nat.{bit_or}
use photonbar.Common.Int.{ℤ, pos, ◌+ℤ◌}
use photonbar.Fonts.{Font}

-- The reply to `xcb_query_font`, with the widths of its characters.
pub record ServerFont : Type 0 where
  pub ascent : ℤ
  pub descent : ℤ
  pub max_width : ℤ
  pub min_byte1 : ℕ
  pub max_byte1 : ℕ
  pub min_char_or_byte2 : ℕ
  pub max_char_or_byte2 : ℕ
  pub char_widths : List ℤ

pub record XftFont : Type 0 where
  pub number : ℕ
  pub ascent : ℤ
  pub descent : ℤ

-- The table is copied where it has entries; `behind` is the memory that a read behind it meets.
unfoldable pub lut_of : ℤ → List ℤ → Option (ℕ → ℤ)
lut_of behind [] = none
lut_of behind (w ∷ ws) = some (λ i. get_or (w ∷ ws) i behind)

unfoldable pub server_font : ℤ → ℕ → ServerFont → Font
unfolding lut_of
server_font behind id f = record {
  ptr = id;
  width_lut = lut_of behind f.char_widths;
  xft = none;
  descent = f.descent;
  height = f.ascent +ℤ f.descent;
  width = f.max_width;
  char_max = bit_or (f.max_byte1 * 256) f.max_char_or_byte2;
  char_min = bit_or (f.min_byte1 * 256) f.min_char_or_byte2;
}

-- The other fields are as `calloc` leaves them.
unfoldable pub xft_font : XftFont → Font
xft_font f = record {
  ptr = 0;
  width_lut = none;
  xft = some f.number;
  descent = f.descent;
  height = f.ascent +ℤ f.descent;
  width = pos 0;
  char_max = 0;
  char_min = 0;
}

-- What `xcb_open_font_checked` and then `XftFontOpenName` find under a pattern; `allocated` is
-- whether `calloc` gives memory.
unfoldable pub open_font : Bool → ℤ → ℕ → Option ServerFont → Option XftFont → Option Font
open_font false behind id server xft = none
open_font true behind id (some f) xft = some (server_font behind id f)
open_font true behind id none (some f) = some (xft_font f)
open_font true behind id none none = none
