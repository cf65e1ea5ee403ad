-- ===== src/Paint.antt =====
-- bar.h, the drawing of elements: `updateGc`, `fillRect`, `shift`, `drawLines`, `drawShift`,
-- `drawChar`, `setAttribute`, `renderElement`, `renderSeparatorAt`, and the colours that
-- `parseLeftModules` and `parseRightModules` apply. The X server's side is what the graphics
-- contexts hold; a drawing request is recorded with the value that its context holds when it is
-- sent. `alloc` is `XftColorAllocName`, `none` a failure of it.
pub mod Draw
pub mod Synced
pub mod Element
pub mod Sides
pub mod Frame
pub mod Row
pub mod Whole
pub mod PolyText
pub mod Loaded
use photonbar.Common.{
  ℕ, zero, suc, ◌+◌, ◌-◌, ◌*◌, ◌/◌, ◌%◌, Bool, true, false, not, ◌&&◌, ◌||◌, Option, none, some,
  List, [], ◌∷◌, ◌++◌, ltb, ◌==◌, if◌then◌else◌, Bytes, get_or,
}
use photonbar.Common.Int.{ℤ, pos, negsuc, ◌+ℤ◌, ◌-ℤ◌, div_ℤ}
use photonbar.Color.{Color, value, same_color}
use photonbar.Color.Print.{xft_color_name}
use photonbar.BarElement.{BarElement, no_color}
use photonbar.Layout.{to_uint16}
use photonbar.Fonts.{Font, Fonts, Chosen, sub_uint32, select_drawable_font}

pub record Colors : Type 0 where
  pub fg : Color
  pub bg : Color
  pub ul : Color

-- The bits of `attrs`.
pub record Attrs : Type 0 where
  pub overl : Bool
  pub underl : Bool

-- What the server keeps: the pixel values of GC_DRAW, GC_CLEAR and GC_ATTR and the font of the
-- first; and `selFg`, the colour that Xft draws with.
pub record Contexts : Type 0 where
  pub draw : ℕ
  pub clear : ℕ
  pub attr : ℕ
  pub sel_fg : ℕ
  pub draw_font : ℕ

pub record Painter : Type 0 where
  pub colors : Colors
  pub colors_dirty : Bool
  pub attrs : Attrs
  pub contexts : Contexts
  pub offset_y_index : ℕ

pub data Align : Type 0 where
  align_l align_c align_r : Align

-- The requests, with the pixel value and the numbers of the request.
pub data Op : Type 0 where
  fill : (pixel : ℕ) (x y : ℤ) (w h : ℕ) → Op
  copy : (from to : ℤ) (w h : ℕ) → Op
  text32 : (pixel xft : ℕ) (x y : ℤ) (ch : ℕ) → Op
  text16 : (pixel font : ℕ) (x y : ℤ) (ch16 : ℕ) → Op

-- What does not change while the bar is drawn.
pub record Setup : Type 0 where
  pub defaults : Colors
  pub fonts : Fonts
  pub bh : ℤ
  pub bu : ℤ
  pub mon_width : ℤ

-- The separator: its characters, with the font and the width of each.
pub record Glyph : Type 0 where
  pub ucs : ℕ
  pub font : Font
  pub width : ℤ

-- The conversion of an int to int16_t.
abbrev pub of_uint16 : ℕ → ℤ
of_uint16 m = if ltb m 32768 then pos m else negsuc (65535 - m)

unfoldable pub to_int16 : ℤ → ℤ
to_int16 x = of_uint16 (to_uint16 x)

abbrev pub sent : Painter → List Op → Painter × List Op
sent p ops = (p, ops)

unfoldable pub fill_rect : ℕ → ℤ → ℤ → ℤ → ℤ → Op
fill_rect pixel x y w h = Op.fill pixel (to_int16 x) (to_int16 y) (to_uint16 w) (to_uint16 h)

-- `xcb_copy_area` within the pixmap.
unfoldable pub copy_area : ℤ → ℤ → ℤ → ℤ → Op
copy_area src dst w h = Op.copy (to_int16 src) (to_int16 dst) (to_uint16 w) (to_uint16 h)

-- The position behind `shift`, and the copy that it makes.
unfoldable pub shifted : Setup → ℤ → Align → ℤ → ℤ × List Op
shifted s x Align.align_l w = (x, [])
shifted s x Align.align_c w =
    let to = div_ℤ s.mon_width 2 -ℤ div_ℤ (x +ℤ w) 2 in
    (to +ℤ x, copy_area (div_ℤ s.mon_width 2 -ℤ div_ℤ x 2) to x s.bh ∷ [])
shifted s x Align.align_r w =
    (s.mon_width -ℤ w, copy_area (s.mon_width -ℤ x) (s.mon_width -ℤ x -ℤ w) x s.bh ∷ [])

unfoldable pub shift : Setup → Contexts → ℤ → Align → ℤ → ℤ × List Op
shift s g x align w =
    let (at, ops) = shifted s x align w in (at, ops ++ (fill_rect g.clear at (pos 0) w s.bh ∷ []))

-- `drawLines`: the line above, then the line below.
unfoldable pub draw_lines : Setup → Attrs → Contexts → ℤ → ℤ → List Op
draw_lines s a g x w =
    let over = fill_rect g.attr x (pos 0) w s.bu ∷ [] in
    let under = fill_rect g.attr x (s.bh -ℤ s.bu) w s.bu ∷ [] in
    (if a.overl then over else []) ++ (if a.underl then under else [])

unfoldable pub draw_shift : Setup → Attrs → Contexts → ℤ → Align → ℤ → List Op
draw_shift s a g x align w = let (at, ops) = shift s g x align w in ops ++ draw_lines s a g at w

-- `indexof(attribute, "ou")`, and the switch on the modifier.
abbrev pub change_bit : ℕ → Bool → Bool
change_bit modifier bit =
    if modifier == b'+'
    then true
    else if modifier == b'-'
    then false
    else if modifier == b'!'
    then not bit
    else bit

unfoldable pub set_attribute : ℕ → ℕ → Attrs → Attrs
set_attribute modifier attribute a =
    if attribute == b'o'
    then record a { overl = change_bit modifier a.overl }
    else if attribute == b'u'
    then record a { underl = change_bit modifier a.underl }
    else a

unfoldable pub mark_colors_dirty : Painter → Painter
mark_colors_dirty p = record p { colors_dirty = true }

-- The colours of an element, where it has them, over others.
unfoldable pub over : {A : Type 0} → BarElement A → Colors → Colors
over e c = record {
  fg = if same_color e.foreground_color no_color then c.fg else e.foreground_color;
  bg = if same_color e.background_color no_color then c.bg else e.background_color;
  ul = if same_color e.underline_color no_color then c.ul else e.underline_color;
}

abbrev pub has_colors : {A : Type 0} → BarElement A → Bool
has_colors e =
    not (same_color e.background_color no_color)
    || not (same_color e.foreground_color no_color)
    || not (same_color e.underline_color no_color)

-- The first part of `renderElement`.
unfoldable pub effective : {A : Type 0} → Colors → BarElement A → Colors
effective d e = record {
  fg = if same_color e.foreground_color no_color then d.fg else e.foreground_color;
  bg = if same_color e.background_color no_color then d.bg else e.background_color;
  ul =
      if e.underline
      then if same_color e.underline_color no_color then d.ul else e.underline_color
      else d.ul;
}

-- The last test of `renderElement` before it draws.
abbrev pub changed : Colors → Colors → Bool
changed old now =
    not (value old.bg == value now.bg)
    || not (value old.fg == value now.fg)
    || not (value old.ul == value now.ul)

module _ (alloc : Bytes → Option ℕ) where
  -- Where no colour can be had, `selFg` stays as it was.
  unfoldable pub update_gc : Painter → Painter
  update_gc p = if not p.colors_dirty then p else record p {
    contexts = record p.contexts {
      draw = value p.colors.fg;
      clear = value p.colors.bg;
      attr = value p.colors.ul;
      sel_fg = elim (alloc (xft_color_name p.colors.fg)) [
        | none ↦ p.contexts.sel_fg
        | some pixel ↦ pixel
      ];
    };
    colors_dirty = false;
  }

  -- The colours that the two parse functions apply for an element.
  unfoldable pub apply_colors : {A : Type 0} → BarElement A → Painter → Painter
  apply_colors e p =
      let changed = record p { colors = over e p.colors } in
      if has_colors e then update_gc (mark_colors_dirty changed) else changed

  unfoldable pub begin_element : {A : Type 0} → Setup → BarElement A → Painter → Painter
  begin_element s e p =
      let now = effective s.defaults e in
      let q = record p { colors = now; attrs = record { overl = false; underl = e.underline } } in
      if changed p.colors now then update_gc (mark_colors_dirty q) else q
