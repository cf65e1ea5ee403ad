-- ===== src/Tests/Drawing.antt =====
-- The fonts, the cached widths and the drawing on small inputs.
use photonbar.Common.{
  ℕ, ◌+◌, ◌<◌, ◌≡◌, refl, Bool, true, false, none, some, List, [], ◌∷◌, arith, ◌==◌, ltb,
  if◌then◌else◌, Bytes,
}
use photonbar.Common.Int.{ℤ, pos}
use photonbar.BarElement.{BarElement, new_element}
use photonbar.Layout.{Panel, Sides}
use photonbar.Glyphs.{Extents, Cache, empty_cache, stops, xft_char_width_slot, xft_char_width}
use photonbar.Glyphs.Slots.{xft_char_width_slot-ends}
use photonbar.Glyphs.Widths.{fresh, IsSound, xft_char_width-agrees}
use photonbar.Fonts.{Font, Fonts}
use photonbar.Paint.{Colors, Painter, Setup, Glyph}
use photonbar.Paint.Draw.{render_panels}
use photonbar.Paint.Synced.{contexts_of}
use photonbar.Paint.Whole.{Pen, paint_panels, render_panels-paints}
use photonbar.Layout.Events.{XEvent, Screen, process_all, process_all-copies}

-- Four slots, of which one is empty.
abbrev crowded : ℕ → ℕ
crowded s = if s == 1 then 0 else s + 20

xft_char_width_slot-ends_example :
    (s : ℕ) × (xft_char_width_slot 4 crowded 6 ≡ some s) × (s < 4) × (stops crowded 6 s ≡ true)
xft_char_width_slot-ends_example = xft_char_width_slot-ends 4 crowded 6 1 (omega arith) refl

abbrev extents : ℕ → Extents
extents ch = record { x_off = pos (ch + 3); width = 5 }

xft_char_width-agrees_example :
    (c : Cache) × (xft_char_width 4 extents 6 empty_cache ≡ some (c, fresh extents 6))
    × IsSound extents c
xft_char_width-agrees_example =
    xft_char_width-agrees 4 extents empty_cache 6 0 (λ s real. absurd (real refl)) (omega arith)
      refl

-- A font of Latin letters and one of icons.
abbrev letters : Font
letters = record {
  ptr = 0;
  width_lut = none;
  xft = some 1;
  descent = pos 3;
  height = pos 16;
  width = pos 0;
  char_max = 0;
  char_min = 0;
}

abbrev icons : Font
icons = record letters { xft = some 2 }

abbrev fonts : Fonts
fonts = record {
  font_list = letters ∷ icons ∷ [];
  font_index = none;
  offsets_y = pos 0 ∷ pos 1 ∷ [];
  offset_y_count = 0;
}

abbrev exists_char : ℕ → ℕ → Bool
exists_char font ch = if font == 1 then ltb ch 256 else ltb 255 ch

abbrev colors : Colors
colors = record {
  fg = record { b = 255; g = 255; r = 255; a = 255 };
  bg = record { b = 0; g = 0; r = 0; a = 255 };
  ul = record { b = 9; g = 9; r = 9; a = 255 };
}

abbrev setup : Setup
setup = record { defaults = colors; fonts = fonts; bh = pos 20; bu = pos 1; mon_width = pos 800 }

abbrev pixel : Bytes → ℕ
pixel name = 7

abbrev painter : Painter
painter = record {
  colors = colors;
  colors_dirty = true;
  attrs = record { overl = true; underl = false };
  contexts = contexts_of pixel colors 0;
  offset_y_index = 0;
}

-- Two characters, underlined, with an offset.
abbrev element : BarElement ℕ
element = record new_element {
  ucs_content = 65 ∷ 62000 ∷ [];
  ucs_content_char_widths = 8 ∷ 12 ∷ [];
  ucs_content_len = 2;
  width = 20;
  background_color = record { b = 1; g = 2; r = 3; a = 255 };
  offset_pixels = 4;
  underline = true;
}

abbrev widths : ℕ → ℤ
widths ch = pos 8

abbrev bar : Glyph
bar = record { ucs = 32; font = letters; width = pos 8 }

abbrev panel : Panel ℕ
panel = record { window = 0; elements = element ∷ element ∷ [] }

abbrev sides : Sides ℕ
sides = record { left = panel ∷ panel ∷ []; right = panel ∷ [] }

abbrev pen : Pen
pen = record { colors = colors; attrs = painter.attrs; index = 0 }

render_panels-paints_example :
    (render_panels widths exists_char
      (λ name. some 7)
      setup
      (bar ∷ [])
      sides.left
      (pos 0)
      painter).1
    ≡ paint_panels pixel widths exists_char setup (bar ∷ []) sides.left (pos 0) pen
render_panels-paints_example =
    render_panels-paints pixel widths exists_char (λ name. some 7) (λ name. refl) setup (bar ∷ [])
      sides.left (pos 0) pen painter
      ((λ e. absurd (ground (arith, e))), ((λ e. absurd (ground (arith, e))), tt))
      ((λ e. absurd (ground (arith, e))), tt) (refl, refl, refl, refl)

-- An expose that others follow, the last one, and a press; then a queue without an expose.
abbrev queues : List (List XEvent)
queues = (XEvent.expose 1 ∷ XEvent.expose 0 ∷ XEvent.press 9 1 5 ∷ []) ∷ (XEvent.other ∷ []) ∷ []

abbrev screen : Screen ℕ
screen = record { sides = sides; processing_expose = false; ran = []; copied = [] }

process_all-copies_example :
    ((process_all (λ h s. s) (1 ∷ 2 ∷ []) queues screen).processing_expose ≡ false)
    × ((process_all (λ h s. s) (1 ∷ 2 ∷ []) queues screen).copied ≡ 1 ∷ 2 ∷ [])
process_all-copies_example = process_all-copies (λ h s. s) (1 ∷ 2 ∷ []) queues screen refl
