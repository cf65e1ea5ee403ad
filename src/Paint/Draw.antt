-- ===== src/Paint/Draw.antt =====
-- bar.h: `drawChar`, `renderElement` and `renderSeparatorAt`, and the two sides of a bar as
-- `renderAllElements` draws them.
use photonbar.Common.{
  ℕ, ◌+◌, ◌*◌, ◌/◌, ◌%◌, Bool, Option, none, some, List, [], ◌∷◌, ◌++◌, ltb, leb, ◌==◌,
  if◌then◌else◌, Bytes, get_or, take,
}
use photonbar.Common.Int.{ℤ, pos, ◌+ℤ◌, ◌-ℤ◌, div_ℤ}
use photonbar.BarElement.{BarElement}
use photonbar.Layout.{Panel, to_uint16}
use photonbar.Fonts.{Font, Fonts, Chosen, sub_uint32, select_drawable_font}
use photonbar.Paint.{
  Contexts, Painter, Align, Op, Setup, Glyph, to_int16, shift, draw_lines, draw_shift, update_gc,
  mark_colors_dirty, begin_element,
}

-- The two bytes of a 16-bit number in the other order.
abbrev pub swap16 : ℕ → ℕ
swap16 c = c / 256 + c % 256 * 256

-- `if (curFont->ptr)`: the font of GC_DRAW.
unfoldable pub set_font : Font → Painter → Painter
set_font f p =
    let old = p.contexts.draw_font in
    record p { contexts = record p.contexts { draw_font = if f.ptr == 0 then old else f.ptr } }

abbrev pub after : List Op → Painter × List Op → Painter × List Op
after first (p, ops) = (p, first ++ ops)

unfoldable pub char_ops : Contexts → Font → ℤ → ℤ → ℕ → List Op
char_ops g f x y ch = elim f.xft [
  | some font ↦ Op.text32 g.sel_fg font x y ch ∷ []
  | none ↦
      let op = Op.text16 g.draw g.draw_font (to_int16 x) (to_int16 y) (swap16 ch) ∷ [] in
      if leb ch 65535 then op else []
]

abbrev pub zip : List ℕ → List ℕ → List (ℕ × ℕ)
zip (c ∷ cs) (w ∷ ws) = (c, w) ∷ zip cs ws
zip _ _ = []

-- The first `ucsContentLen` entries of the two buffers.
unfoldable pub cells : {A : Type 0} → BarElement A → List (ℕ × ℕ)
cells e = take e.ucs_content_len (zip e.ucs_content e.ucs_content_char_widths)

-- `pos_x` at the end of `renderSeparatorAt`.
abbrev pub glyphs_end : List Glyph → ℤ → ℤ
glyphs_end [] x = x
glyphs_end (g ∷ gs) x = glyphs_end gs (x +ℤ g.width)

abbrev pub elements_end : {A : Type 0} → List (BarElement A) → ℤ → ℤ
elements_end [] x = x
elements_end (e ∷ es) x = elements_end es (x +ℤ pos e.width)

-- `xft_width` is the width that `xftCharWidth` gives.
module _ (xft_width : ℕ → ℤ) where
  unfoldable pub cell_width : Font → ℕ → ℤ
  cell_width f ch = elim f.xft [
    | some x ↦ xft_width ch
    | none ↦ elim f.width_lut [ none ↦ f.width | some widths ↦ widths (sub_uint32 ch f.char_min) ]
  ]

  -- Where `offsetYIndex` points, the offset is added to the baseline.
  unfoldable pub draw_char : Setup → Painter → Font → ℤ → Align → ℕ → List Op
  draw_char s p f x align ch =
      let w = cell_width f ch in
      let (at, ops) = shift s p.contexts x align w in
      let y =
        div_ℤ s.bh 2
        +ℤ div_ℤ f.height 2
        -ℤ f.descent
        +ℤ get_or s.fonts.offsets_y p.offset_y_index (pos 0) in
      ops ++ (char_ops p.contexts f at y ch ++ draw_lines s p.attrs p.contexts at w)

  -- The loop of `renderSeparatorAt`. It spares the request for a font that is the last one's;
  -- the context holds the same font either way.
  unfoldable pub draw_glyphs : Setup → List Glyph → ℤ → Painter → Painter × List Op
  draw_glyphs s [] x p = (p, [])
  draw_glyphs s (g ∷ gs) x p =
      let q = set_font g.font p in
      after (draw_char s q g.font x Align.align_l g.ucs) (draw_glyphs s gs (x +ℤ g.width) q)

  unfoldable pub render_separator_at :
      (Bytes → Option ℕ) → Setup → List Glyph → ℤ → Painter → Painter × List Op
  render_separator_at alloc s sep x p =
      let now = record p.colors { bg = s.defaults.bg; fg = s.defaults.fg } in
      draw_glyphs s sep x (update_gc alloc (mark_colors_dirty (record p { colors = now })))

module _ (exists_char : ℕ → ℕ → Bool) where
  -- The font of a character, the first one where none has it; `none` skips the character.
  unfoldable pub font_for : Fonts → ℕ → ℕ → Option Chosen
  font_for fs old ch = elim (select_drawable_font exists_char fs ch) [
    | some k ↦ some k
    | none ↦ elim fs.font_list [ [] ↦ none | f ∷ rest ↦ some (record { font = f; index = old }) ]
  ]

module _ (xft_width : ℕ → ℤ) (exists_char : ℕ → ℕ → Bool) where
  -- The loop over the characters and their stored widths.
  unfoldable pub render_chars : Setup → List (ℕ × ℕ) → ℤ → Painter → Painter × List Op
  render_chars s [] x p = (p, [])
  render_chars s ((ch, w) ∷ rest) x p = elim (font_for exists_char s.fonts p.offset_y_index ch) [
    | none ↦ render_chars s rest x p
    | some k ↦
        let q = set_font k.font (record p { offset_y_index = k.index }) in
        after (draw_char xft_width s q k.font x Align.align_l ch)
          (render_chars s rest (x +ℤ pos w) q)
  ]

  unfoldable pub render_element :
      (Bytes → Option ℕ) → {A : Type 0} → Setup → BarElement A → Painter → Painter × List Op
  render_element alloc s e p =
      let q = begin_element alloc s e p in
      let x = pos e.begin_x in
      let offset = pos e.offset_pixels in
      if ltb 0 e.offset_pixels
      then after (draw_shift s q.attrs q.contexts x Align.align_l offset)
          (render_chars s (cells e) (x +ℤ offset) q)
      else render_chars s (cells e) x q

  -- The elements of a module from `current_x` on, and `current_x` behind them.
  unfoldable pub render_elements :
      (Bytes → Option ℕ)
      → {A : Type 0} → Setup
      → List (BarElement A)
      → ℤ
      → Painter
      → Painter × List Op
  render_elements alloc s [] x p = (p, [])
  render_elements alloc s (e ∷ es) x p =
      let (q, ops) = render_element alloc s (record e { begin_x = to_uint16 x }) p in
      after ops (render_elements alloc s es (x +ℤ pos e.width) q)

  -- One side of the bar in `renderAllElements`.
  unfoldable pub render_panels :
      (Bytes → Option ℕ)
      → {A : Type 0} → Setup
      → List Glyph
      → List (Panel A)
      → ℤ
      → Painter
      → Painter × List Op
  render_panels alloc s sep [] x p = (p, [])
  render_panels alloc s sep (m ∷ []) x p = render_elements alloc s m.elements x p
  render_panels alloc s sep (m ∷ n ∷ ms) x p =
      let (q, ops) = render_elements alloc s m.elements x p in
      let end = elements_end m.elements x in
      let (r, bar) = render_separator_at xft_width alloc s sep end q in
      after (ops ++ bar) (render_panels alloc s sep (n ∷ ms) (glyphs_end sep end) r)
