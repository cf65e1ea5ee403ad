-- ===== src/Paint/Whole.antt =====
-- One side of the bar (bar.h, `renderAllElements`), elements and separators, described without the
-- graphics contexts.
use photonbar.Common.{
  ℕ, ◌≡◌, ◌∙◌, refl, ap, Bool, false, Option, some, List, [], ◌∷◌, ◌++◌, ltb, Bytes, Bool-cases,
  Option-cases, inl, inr, All,
}
use photonbar.Common.Int.{ℤ, pos, ◌+ℤ◌}
use photonbar.BarElement.{BarElement}
use photonbar.Layout.{Panel, to_uint16}
use photonbar.Fonts.{Font}
use photonbar.Paint.{
  Align, Attrs, Colors, Painter, Op, Setup, Glyph, begin_element, effective, update_gc,
  mark_colors_dirty,
}
use photonbar.Paint.Draw.{
  set_font, font_for, cells, draw_char, draw_glyphs, glyphs_end, elements_end, render_chars,
  render_element, render_elements, render_separator_at, render_panels,
}
use photonbar.Paint.Synced.{IsSynced, set_font-IsSynced, update_gc-IsSynced}
use photonbar.Paint.Element.{
  IsFont, ink, draw_char-ink, render_element-paints, begin_element-colors,
}
use photonbar.Paint.Row.{index_after, paint_elements, render_element-index, render_elements-paints}

-- What is left of the elements drawn so far, when the contexts are left out.
pub record Pen : Type 0 where
  pub colors : Colors
  pub attrs : Attrs
  pub index : ℕ

module _ (pixel : Bytes → ℕ) (xft_width : ℕ → ℤ) (exists_char : ℕ → ℕ → Bool) where
  -- The painter has the pen's colours, attributes and offset, and contexts that hold the colours.
  abbrev pub Holds : Pen → Painter → Type 0
  Holds n p =
      IsSynced pixel p × (p.colors ≡ n.colors) × (p.attrs ≡ n.attrs) × (p.offset_y_index ≡ n.index)

  abbrev pub pen_after : {A : Type 0} → Setup → List (BarElement A) → Pen → Pen
  pen_after s [] n = n
  pen_after s (e ∷ es) n = pen_after s es (record {
    colors = effective s.defaults e;
    attrs = record { overl = false; underl = e.underline };
    index = index_after pixel xft_width exists_char s.fonts (cells e) n.index;
  })

  -- The separator is in the default colours, but keeps the attributes and the underline's colour.
  abbrev pub separator_pen : Setup → Pen → Pen
  separator_pen s n = record n {
    colors = record n.colors { bg = s.defaults.bg; fg = s.defaults.fg };
  }

  unfoldable pub paint_glyphs : Setup → List Glyph → ℤ → Pen → List Op
  paint_glyphs s [] x n = []
  paint_glyphs s (g ∷ gs) x n =
      draw_char xft_width s (ink pixel xft_width exists_char n.colors n.attrs g.font n.index) g.font
        x Align.align_l g.ucs
      ++ paint_glyphs s gs (x +ℤ g.width) n

  unfoldable pub paint_panels :
      {A : Type 0} → Setup → List Glyph → List (Panel A) → ℤ → Pen → List Op
  paint_panels s sep [] x n = []
  paint_panels s sep (m ∷ []) x n =
      paint_elements pixel xft_width exists_char s m.elements x n.index
  paint_panels s sep (m ∷ k ∷ ms) x n =
      let end = elements_end m.elements x in
      let bar = separator_pen s (pen_after s m.elements n) in
      (paint_elements pixel xft_width exists_char s m.elements x n.index
        ++ paint_glyphs s sep end bar)
      ++ paint_panels s sep (k ∷ ms) (glyphs_end sep end) bar

  render_chars-attrs :
      (s : Setup) (chars : List (ℕ × ℕ)) (x : ℤ) (p : Painter)
      → (render_chars xft_width exists_char s chars x p).0.attrs ≡ p.attrs
  unfolding render_chars set_font
  render_chars-attrs s [] x p = refl
  render_chars-attrs s ((ch, w) ∷ rest) x p =
      elim (Option-cases (font_for exists_char s.fonts p.offset_y_index ch)) [
        | inl skipped ↦ rw (render_chars, skipped) (render_chars-attrs s rest x p)
        | inr (k, chosen) ↦
            rw (render_chars, chosen)
              (render_chars-attrs s rest (x +ℤ pos w)
                (set_font k.font (record p { offset_y_index = k.index })))
      ]

  render_element-attrs :
      {A : Type 0} (alloc : Bytes → Option ℕ) (s : Setup) (e : BarElement A) (p : Painter)
      → (render_element xft_width exists_char alloc s e p).0.attrs
        ≡ record { overl = false; underl = e.underline }
  unfolding render_element
  render_element-attrs alloc s e p =
      let q = begin_element alloc s e p in
      let attrs = (begin_element-colors pixel xft_width exists_char alloc s e p).1 in
      let offset = pos e.begin_x +ℤ pos e.offset_pixels in
      elim (Bool-cases (ltb 0 e.offset_pixels)) [
        | inl shifted ↦
            rw (render_element, shifted) (render_chars-attrs s (cells e) offset q ∙ attrs)
        | inr plain ↦
            rw (render_element, plain) (render_chars-attrs s (cells e) (pos e.begin_x) q ∙ attrs)
      ]

  module _ (alloc : Bytes → Option ℕ)
      (given : (name : Bytes) → alloc name ≡ some (pixel name)) where
    render_elements-Holds :
        {A : Type 0} (s : Setup) (es : List (BarElement A)) (x : ℤ) (n : Pen) (p : Painter)
        → All IsFont s.fonts.font_list
        → Holds n p
        → Holds (pen_after s es n) (render_elements xft_width exists_char alloc s es x p).0
    unfolding render_elements effective cells
    render_elements-Holds s [] x n p fonts h = h
    render_elements-Holds s (e ∷ es) x n p fonts h =
        let placed = record e { begin_x = to_uint16 x } in
        let q = (render_element xft_width exists_char alloc s placed p).0 in
        let drawn =
          render_element-paints pixel xft_width exists_char alloc s placed p given fonts h.0 in
        let index =
          render_element-index pixel xft_width exists_char alloc s placed p
          ∙ ap (index_after pixel xft_width exists_char s.fonts (cells e)) h.3 in
        render_elements-Holds s es (x +ℤ pos e.width) _ q fonts
          (drawn.1, drawn.2, render_element-attrs alloc s placed p, index)

    render_elements-pen :
        {A : Type 0} (s : Setup) (es : List (BarElement A)) (x : ℤ) (n : Pen) (p : Painter)
        → All IsFont s.fonts.font_list
        → Holds n p
        → (render_elements xft_width exists_char alloc s es x p).1
          ≡ paint_elements pixel xft_width exists_char s es x n.index
    render_elements-pen s es x n p fonts h =
        render_elements-paints pixel xft_width exists_char alloc s es x p given fonts h.0
        ∙ ap (paint_elements pixel xft_width exists_char s es x) h.3

    draw_char-pen :
        (s : Setup) (f : Font) (x : ℤ) (ch : ℕ) (n : Pen) (p : Painter)
        → IsFont f
        → Holds n p
        → draw_char xft_width s (set_font f p) f x Align.align_l ch
          ≡ draw_char xft_width s
              (ink pixel xft_width exists_char n.colors n.attrs f n.index)
              f
              x
              Align.align_l
              ch
    draw_char-pen s f x ch n p real h =
        draw_char-ink pixel xft_width exists_char s p f x ch real h.0 ∙ rw (h.1, h.2, h.3) refl

    draw_glyphs-paints :
        (s : Setup) (gs : List Glyph) (x : ℤ) (n : Pen) (p : Painter)
        → All (λ g. IsFont g.font) gs
        → Holds n p
        → ((draw_glyphs xft_width s gs x p).1 ≡ paint_glyphs s gs x n)
          × Holds n (draw_glyphs xft_width s gs x p).0
    unfolding draw_glyphs paint_glyphs set_font
    draw_glyphs-paints s [] x n p fonts h = (refl, h)
    draw_glyphs-paints s (g ∷ gs) x n p fonts h =
        let rest =
          draw_glyphs-paints s gs (x +ℤ g.width) n (set_font g.font p) fonts.1
            (set_font-IsSynced pixel g.font p h.0, h.1, h.2, h.3) in
        (rw (draw_char-pen s g.font x g.ucs n p fonts.0 h, rest.0) refl, rest.1)

    render_separator_at-paints :
        (s : Setup) (sep : List Glyph) (x : ℤ) (n : Pen) (p : Painter)
        → All (λ g. IsFont g.font) sep
        → Holds n p
        → ((render_separator_at xft_width alloc s sep x p).1
            ≡ paint_glyphs s sep x (separator_pen s n))
          × Holds (separator_pen s n) (render_separator_at xft_width alloc s sep x p).0
    unfolding render_separator_at update_gc mark_colors_dirty
    render_separator_at-paints s sep x n p fonts h =
        let now : Colors = record p.colors { bg = s.defaults.bg; fg = s.defaults.fg } in
        let q = record p { colors = now } in
        let colors = ap (λ (c : Colors). record c { bg = s.defaults.bg; fg = s.defaults.fg }) h.1 in
        draw_glyphs-paints s sep x (separator_pen s n) (update_gc alloc (mark_colors_dirty q)) fonts
          (update_gc-IsSynced pixel alloc given q, colors, h.2, h.3)

    -- Where Xft gives a colour for every name, every font of the X server has an id, those of the
    -- separator included, and the painter holds the pen's colours, attributes and offset, in its
    -- contexts also, the requests for one side of the bar are those of the description.
    pub render_panels-paints :
        {A : Type 0} (s : Setup) (sep : List Glyph) (ms : List (Panel A)) (x : ℤ) (n : Pen)
        (p : Painter)
        → All IsFont s.fonts.font_list
        → All (λ g. IsFont g.font) sep
        → Holds n p
        → (render_panels xft_width exists_char alloc s sep ms x p).1 ≡ paint_panels s sep ms x n
    unfolding render_panels paint_panels
    render_panels-paints s sep [] x n p fonts bars h = refl
    render_panels-paints s sep (m ∷ []) x n p fonts bars h =
        render_elements-pen s m.elements x n p fonts h
    render_panels-paints s sep (m ∷ k ∷ ms) x n p fonts bars h =
        let end = elements_end m.elements x in
        let q = (render_elements xft_width exists_char alloc s m.elements x p).0 in
        let bar =
          render_separator_at-paints s sep end (pen_after s m.elements n) q bars
            (render_elements-Holds s m.elements x n p fonts h) in
        rw
          (
            render_elements-pen s m.elements x n p fonts h,
            bar.0,
            render_panels-paints s sep (k ∷ ms) (glyphs_end sep end)
                (separator_pen s (pen_after s m.elements n))
                (render_separator_at xft_width alloc s sep end q).0 fonts bars bar.1,
          )
          refl
