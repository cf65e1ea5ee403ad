-- ===== src/Paint/Row.antt =====
-- The elements of one module, drawn one after another (bar.h, `renderAllElements`), described
-- without the graphics contexts.
use photonbar.Common.{
  ℕ, ◌≡◌, ◌∙◌, refl, ap, Bool, Option, none, some, List, [], ◌∷◌, ◌++◌, ltb, Bytes, Bool-cases,
  Option-cases, inl, inr, All,
}
use photonbar.Common.Int.{ℤ, pos, ◌+ℤ◌}
use photonbar.BarElement.{BarElement}
use photonbar.Layout.{to_uint16}
use photonbar.Fonts.{Fonts}
use photonbar.Paint.{Painter, Op, Setup, begin_element}
use photonbar.Paint.Draw.{set_font, font_for, cells, render_chars, render_element, render_elements}
use photonbar.Paint.Synced.{IsSynced}
use photonbar.Paint.Element.{IsFont, paint_element, render_element-paints, begin_element-colors}

module _ (pixel : Bytes → ℕ) (xft_width : ℕ → ℤ) (exists_char : ℕ → ℕ → Bool) where
  -- `offsetYIndex` behind some characters: that of the last font chosen.
  unfoldable pub index_after : Fonts → List (ℕ × ℕ) → ℕ → ℕ
  index_after fs [] old = old
  index_after fs ((ch, w) ∷ rest) old = elim (font_for exists_char fs old ch) [
    | none ↦ index_after fs rest old
    | some k ↦ index_after fs rest k.index
  ]

  -- Every element at its place, in its colours, with the offset that the characters before it left.
  unfoldable pub paint_elements : {A : Type 0} → Setup → List (BarElement A) → ℤ → ℕ → List Op
  paint_elements s [] x old = []
  paint_elements s (e ∷ es) x old =
      paint_element pixel xft_width exists_char s (record e { begin_x = to_uint16 x }) old
      ++ paint_elements s es (x +ℤ pos e.width) (index_after s.fonts (cells e) old)

  render_chars-index :
      (s : Setup) (chars : List (ℕ × ℕ)) (x : ℤ) (p : Painter)
      → (render_chars xft_width exists_char s chars x p).0.offset_y_index
        ≡ index_after s.fonts chars p.offset_y_index
  unfolding render_chars index_after set_font
  render_chars-index s [] x p = refl
  render_chars-index s ((ch, w) ∷ rest) x p =
      elim (Option-cases (font_for exists_char s.fonts p.offset_y_index ch)) [
        | inl skipped ↦ rw (render_chars, index_after, skipped) (render_chars-index s rest x p)
        | inr (k, chosen) ↦
            rw (render_chars, index_after, chosen)
              (render_chars-index s rest (x +ℤ pos w)
                (set_font k.font (record p { offset_y_index = k.index })))
      ]

  pub render_element-index :
      {A : Type 0} (alloc : Bytes → Option ℕ) (s : Setup) (e : BarElement A) (p : Painter)
      → (render_element xft_width exists_char alloc s e p).0.offset_y_index
        ≡ index_after s.fonts (cells e) p.offset_y_index
  unfolding render_element
  render_element-index alloc s e p =
      let q = begin_element alloc s e p in
      let keep = (begin_element-colors pixel xft_width exists_char alloc s e p).2 in
      let stays = ap (index_after s.fonts (cells e)) keep in
      elim (Bool-cases (ltb 0 e.offset_pixels)) [
        | inl shifted ↦
            rw (render_element, shifted)
              (render_chars-index s (cells e) (pos e.begin_x +ℤ pos e.offset_pixels) q ∙ stays)
        | inr plain ↦
            rw (render_element, plain) (render_chars-index s (cells e) (pos e.begin_x) q ∙ stays)
      ]

  -- Where Xft gives a colour for every name, every font of the X server has an id and the contexts
  -- hold the bar's colours, the requests for a module's elements are those of the description.
  pub render_elements-paints :
      {A : Type 0} (alloc : Bytes → Option ℕ) (s : Setup) (es : List (BarElement A)) (x : ℤ)
      (p : Painter)
      → ((name : Bytes) → alloc name ≡ some (pixel name))
      → All IsFont s.fonts.font_list
      → IsSynced pixel p
      → (render_elements xft_width exists_char alloc s es x p).1
        ≡ paint_elements s es x p.offset_y_index
  unfolding render_elements paint_elements cells
  render_elements-paints alloc s [] x p given fonts h = refl
  render_elements-paints alloc s (e ∷ es) x p given fonts h =
      let placed = record e { begin_x = to_uint16 x } in
      let q = (render_element xft_width exists_char alloc s placed p).0 in
      let drawn =
        render_element-paints pixel xft_width exists_char alloc s placed p given fonts h in
      rw
        (
          drawn.0,
          render_elements-paints alloc s es (x +ℤ pos e.width) q given fonts drawn.1,
          render_element-index alloc s placed p,
        )
        refl
