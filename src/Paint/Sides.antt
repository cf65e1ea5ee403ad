-- ===== src/Paint/Sides.antt =====
-- A side of the bar, drawn by `renderAllElements` (bar.h): elements and separators in turn.
use photonbar.Common.{ℕ, ◌≡◌, Bool, Option, some, List, [], ◌∷◌, Bytes, All}
use photonbar.Common.Int.{ℤ, pos, ◌+ℤ◌}
use photonbar.BarElement.{BarElement}
use photonbar.Layout.{Panel, to_uint16}
use photonbar.Paint.{Painter, Colors, Setup, Glyph, apply_colors, update_gc, mark_colors_dirty}
use photonbar.Paint.Draw.{
  set_font, draw_glyphs, render_separator_at, render_elements, render_panels,
}
use photonbar.Paint.Synced.{IsSynced, update_gc-IsSynced, apply_colors-IsSynced, set_font-IsSynced}
use photonbar.Paint.Element.{IsFont, render_element-paints}

-- The colours that the two parse functions apply, element after element.
unfoldable pub apply_all :
    (Bytes → Option ℕ) → {A : Type 0} → List (BarElement A) → Painter → Painter
apply_all alloc [] p = p
apply_all alloc (e ∷ es) p = apply_all alloc es (apply_colors alloc e p)

module _ (pixel : Bytes → ℕ) (xft_width : ℕ → ℤ) (exists_char : ℕ → ℕ → Bool)
    (alloc : Bytes → Option ℕ) (given : (name : Bytes) → alloc name ≡ some (pixel name)) where
  pub apply_all-IsSynced :
      {A : Type 0} (es : List (BarElement A)) (p : Painter)
      → IsSynced pixel p
      → IsSynced pixel (apply_all alloc es p)
  unfolding apply_all
  apply_all-IsSynced [] p h = h
  apply_all-IsSynced (e ∷ es) p h =
      apply_all-IsSynced es (apply_colors alloc e p) (apply_colors-IsSynced pixel alloc given e p h)

  draw_glyphs-IsSynced :
      (s : Setup) (sep : List Glyph) (x : ℤ) (p : Painter)
      → IsSynced pixel p
      → IsSynced pixel (draw_glyphs xft_width s sep x p).0
  unfolding draw_glyphs
  draw_glyphs-IsSynced s [] x p h = h
  draw_glyphs-IsSynced s (g ∷ gs) x p h =
      draw_glyphs-IsSynced s gs (x +ℤ g.width) (set_font g.font p)
        (set_font-IsSynced pixel g.font p h)

  render_separator_at-IsSynced :
      (s : Setup) (sep : List Glyph) (x : ℤ) (p : Painter)
      → IsSynced pixel (render_separator_at xft_width alloc s sep x p).0
  unfolding render_separator_at
  render_separator_at-IsSynced s sep x p =
      let now : Colors = record p.colors { bg = s.defaults.bg; fg = s.defaults.fg } in
      let q = record p { colors = now } in
      draw_glyphs-IsSynced s sep x (update_gc alloc (mark_colors_dirty q))
        (update_gc-IsSynced pixel alloc given q)

  render_elements-IsSynced :
      {A : Type 0} (s : Setup) (es : List (BarElement A)) (x : ℤ) (p : Painter)
      → All IsFont s.fonts.font_list
      → IsSynced pixel p
      → IsSynced pixel (render_elements xft_width exists_char alloc s es x p).0
  unfolding render_elements
  render_elements-IsSynced s [] x p fonts h = h
  render_elements-IsSynced s (e ∷ es) x p fonts h =
      let placed = record e { begin_x = to_uint16 x } in
      let drawn =
        render_element-paints pixel xft_width exists_char alloc s placed p given fonts h in
      render_elements-IsSynced s es (x +ℤ pos e.width) _ fonts drawn.1

  -- Where Xft gives a colour for every name and every font of the X server has an id, drawing a side
  -- of the bar, separators included, leaves the contexts with the bar's colours, if they held them
  -- before.
  pub render_panels-IsSynced :
      {A : Type 0} (s : Setup) (sep : List Glyph) (ms : List (Panel A)) (x : ℤ) (p : Painter)
      → All IsFont s.fonts.font_list
      → IsSynced pixel p
      → IsSynced pixel (render_panels xft_width exists_char alloc s sep ms x p).0
  unfolding render_panels
  render_panels-IsSynced s sep [] x p fonts h = h
  render_panels-IsSynced s sep (m ∷ []) x p fonts h =
      render_elements-IsSynced s m.elements x p fonts h
  render_panels-IsSynced s sep (m ∷ n ∷ ms) x p fonts h =
      render_panels-IsSynced s sep (n ∷ ms) _ _ fonts (render_separator_at-IsSynced s sep _ _)
