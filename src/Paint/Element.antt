-- ===== src/Paint/Element.antt =====
-- What `renderElement` and `renderSeparatorAt` (bar.h) draw, described without the graphics
-- contexts: every request in the colours that the element has.
use photonbar.Common.{
  ℕ, ◌≡◌, ◌≢◌, ◌∙◌, refl, ap, arith, Bool, false, Option, none, some, List, [], ◌∷◌, ◌++◌, ◌==◌,
  ltb, if◌then◌else◌, Bytes, Bool-cases, Option-cases, inl, inr, All, ==_iff,
}
use mathlib.Core.Option.{some_inj, none-ne-some}
use photonbar.Fonts.Choice.{select_drawable_font-All}
use photonbar.Common.Int.{ℤ, pos, ◌+ℤ◌}
use photonbar.BarElement.{BarElement}
use photonbar.Fonts.{Font, Fonts, Chosen, select_drawable_font}
use photonbar.Paint.{
  Colors, Attrs, Contexts, Painter, Align, Op, Setup, shift, draw_lines, draw_shift, effective,
  begin_element, update_gc, changed, mark_colors_dirty,
}
use photonbar.Paint.Draw.{
  set_font, char_ops, draw_char, font_for, render_chars, cells, render_element,
}
use photonbar.Paint.Synced.{contexts_of, IsSynced, begin_element-IsSynced, set_font-IsSynced}

-- A font of the X server has an id.
abbrev pub IsFont : Font → Type 0
IsFont f = f.xft ≡ none → f.ptr ≢ 0

module _ (pixel : Bytes → ℕ) (xft_width : ℕ → ℤ) (exists_char : ℕ → ℕ → Bool) where
  abbrev pub painter : Colors → Attrs → ℕ → ℕ → Painter
  painter c a font index = record {
    colors = c;
    colors_dirty = false;
    attrs = a;
    contexts = contexts_of pixel c font;
    offset_y_index = index;
  }

  -- A painter whose contexts hold given colours and a given font.
  abbrev pub ink : Colors → Attrs → Font → ℕ → Painter
  ink c a f index = painter c a f.ptr index

  -- Every character in its font, the characters side by side with their stored widths.
  unfoldable pub paint_chars : Setup → Colors → Attrs → List (ℕ × ℕ) → ℤ → ℕ → List Op
  paint_chars s c a [] x old = []
  paint_chars s c a ((ch, w) ∷ rest) x old = elim (font_for exists_char s.fonts old ch) [
    | none ↦ paint_chars s c a rest x old
    | some k ↦
        draw_char xft_width s (ink c a k.font k.index) k.font x Align.align_l ch
        ++ paint_chars s c a rest (x +ℤ pos w) k.index
  ]

  abbrev pub paint_element : {A : Type 0} → Setup → BarElement A → ℕ → List Op
  paint_element s e old =
      let c = effective s.defaults e in
      let a : Attrs = record { overl = false; underl = e.underline } in
      let x = pos e.begin_x in
      let offset = pos e.offset_pixels in
      if ltb 0 e.offset_pixels
      then draw_shift s a (contexts_of pixel c 0) x Align.align_l offset
        ++ paint_chars s c a (cells e) (x +ℤ offset) old
      else paint_chars s c a (cells e) x old

  -- The font of GC_DRAW is of no account to an Xft font.
  draw_char_font :
      (s : Setup) (c : Colors) (a : Attrs) (index m n : ℕ) (f : Font) (x : ℤ) (ch xft : ℕ)
      → f.xft ≡ some xft
      → draw_char xft_width s (painter c a m index) f x Align.align_l ch
        ≡ draw_char xft_width s (painter c a n index) f x Align.align_l ch
  unfolding draw_char char_ops shift draw_lines
  draw_char_font s c a index m n f x ch xft e = rw e refl

  draw_char_contexts :
      (s : Setup) (p : Painter) (g : Contexts) (f : Font) (x : ℤ) (ch : ℕ)
      → p.contexts ≡ g
      → draw_char xft_width s p f x Align.align_l ch
        ≡ draw_char xft_width s
            (record {
              colors = p.colors;
              colors_dirty = false;
              attrs = p.attrs;
              contexts = g;
              offset_y_index = p.offset_y_index;
            })
            f
            x
            Align.align_l
            ch
  unfolding draw_char
  draw_char_contexts s p g f x ch e =
      ap (λ (h : Contexts). draw_char xft_width s (record p { contexts = h }) f x Align.align_l ch)
        e

  -- The requests for a character depend on the colours, the attributes and the font alone.
  pub draw_char-ink :
      (s : Setup) (p : Painter) (f : Font) (x : ℤ) (ch : ℕ)
      → IsFont f
      → IsSynced pixel p
      → draw_char xft_width s (set_font f p) f x Align.align_l ch
        ≡ draw_char xft_width s (ink p.colors p.attrs f p.offset_y_index) f x Align.align_l ch
  unfolding set_font
  draw_char-ink s p f x ch real h =
      let q = set_font f p in
      let c = p.colors in
      let font = if f.ptr == 0 then p.contexts.draw_font else f.ptr in
      let start =
        draw_char_contexts s q (contexts_of pixel c font) f x ch (set_font-IsSynced pixel f p h) in
      elim (Bool-cases (f.ptr == 0)) [
        | inr given ↦
            let same : font ≡ f.ptr = rw given refl in
            start
            ∙ ap
                (λ (n : ℕ).
                  draw_char xft_width s (painter c p.attrs n p.offset_y_index) f x Align.align_l ch)
                same
        | inl zero_ptr ↦ elim (Option-cases f.xft) [
          | inl server ↦ absurd (real server ((==_iff _ _).0 zero_ptr))
          | inr (xft, e) ↦
              start ∙ draw_char_font s c p.attrs p.offset_y_index font f.ptr f x ch xft e
        ]
      ]

  first_of :
      (fonts : List Font) (old : ℕ) (k : Chosen)
      → All IsFont fonts
      → elim fonts as (λ _. Option Chosen) [
        | [] ↦ none
        | f ∷ rest ↦ some (record { font = f; index = old })
      ]
        ≡ some k
      → IsFont k.font
  first_of [] old k all h = absurd (none-ne-some k h)
  first_of (f ∷ rest) old k all h = rw (← some_inj.0 h) all.0

  IsFonts-chosen :
      (fs : Fonts) (old ch : ℕ) (k : Chosen)
      → All IsFont fs.font_list
      → font_for exists_char fs old ch ≡ some k
      → IsFont k.font
  unfolding font_for
  IsFonts-chosen fs old ch k fonts h =
      elim (Option-cases (select_drawable_font exists_char fs ch)) [
        | inr (j, found) ↦
            let same : j ≡ k = some_inj.0 (ground (arith, h, found)) in
            select_drawable_font-All exists_char IsFont fs ch k fonts (rw same at found)
        | inl lacking ↦ first_of fs.font_list old k fonts (ground (arith, h, lacking))
      ]

  render_chars-paints :
      (s : Setup) (chars : List (ℕ × ℕ)) (x : ℤ) (p : Painter)
      → All IsFont s.fonts.font_list
      → IsSynced pixel p
      → ((render_chars xft_width exists_char s chars x p).1
          ≡ paint_chars s p.colors p.attrs chars x p.offset_y_index)
        × IsSynced pixel (render_chars xft_width exists_char s chars x p).0
        × ((render_chars xft_width exists_char s chars x p).0.colors ≡ p.colors)
  unfolding render_chars paint_chars set_font
  render_chars-paints s [] x p fonts h = (refl, h, refl)
  render_chars-paints s ((ch, w) ∷ rest) x p fonts h =
      elim (Option-cases (font_for exists_char s.fonts p.offset_y_index ch)) [
        | inl skipped ↦
            rw (render_chars, paint_chars, skipped) (render_chars-paints s rest x p fonts h)
        | inr (k, chosen) ↦
            let at = record p { offset_y_index = k.index } in
            let q = set_font k.font at in
            let ih =
              render_chars-paints s rest (x +ℤ pos w) q fonts
                (set_font-IsSynced pixel k.font at h) in
            rw (render_chars, paint_chars, chosen)
              (
                rw
                    (
                      draw_char-ink s at k.font x ch
                          (IsFonts-chosen s.fonts p.offset_y_index ch k fonts chosen) h,
                      ih.0,
                    )
                    refl,
                ih.1,
                ih.2,
              )
      ]

  draw_shift-ink :
      (s : Setup) (p : Painter) (x w : ℤ)
      → IsSynced pixel p
      → draw_shift s p.attrs p.contexts x Align.align_l w
        ≡ draw_shift s p.attrs (contexts_of pixel p.colors 0) x Align.align_l w
  unfolding draw_shift shift draw_lines
  draw_shift-ink s p x w h = ap (λ (g : Contexts). draw_shift s p.attrs g x Align.align_l w) h

  pub begin_element-colors :
      {A : Type 0} (alloc : Bytes → Option ℕ) (s : Setup) (e : BarElement A) (p : Painter)
      → ((begin_element alloc s e p).colors ≡ effective s.defaults e)
        × ((begin_element alloc s e p).attrs ≡ record { overl = false; underl = e.underline })
        × ((begin_element alloc s e p).offset_y_index ≡ p.offset_y_index)
  unfolding begin_element update_gc mark_colors_dirty
  begin_element-colors alloc s e p = elim (Bool-cases (changed p.colors (effective s.defaults e))) [
    | inl new ↦ rw new (refl, refl, refl)
    | inr old ↦ rw old (refl, refl, refl)
  ]

  -- Where Xft gives a colour for every name, every font of the X server has an id and the contexts
  -- hold the bar's colours, the requests of `renderElement` are those that the element's own colours
  -- give, character by character, and the contexts hold these colours behind it.
  pub render_element-paints :
      {A : Type 0} (alloc : Bytes → Option ℕ) (s : Setup) (e : BarElement A) (p : Painter)
      → ((name : Bytes) → alloc name ≡ some (pixel name))
      → All IsFont s.fonts.font_list
      → IsSynced pixel p
      → ((render_element xft_width exists_char alloc s e p).1 ≡ paint_element s e p.offset_y_index)
        × IsSynced pixel (render_element xft_width exists_char alloc s e p).0
        × ((render_element xft_width exists_char alloc s e p).0.colors ≡ effective s.defaults e)
  unfolding render_element
  render_element-paints alloc s e p given fonts h =
      let q = begin_element alloc s e p in
      let keep = begin_element-colors alloc s e p in
      let x = pos e.begin_x in
      let offset = pos e.offset_pixels in
      let synced = begin_element-IsSynced pixel alloc given s e p h in
      elim (Bool-cases (ltb 0 e.offset_pixels)) [
        | inl moved ↦
            let chars = render_chars-paints s (cells e) (x +ℤ offset) q fonts synced in
            rw moved (
              rw (draw_shift-ink s q x offset synced, chars.0, keep.0, keep.1, keep.2) refl,
              chars.1,
              chars.2 ∙ keep.0,
            )
        | inr unmoved ↦
            let chars = render_chars-paints s (cells e) x q fonts synced in
            rw unmoved (rw (chars.0, keep.0, keep.1, keep.2) refl, chars.1, chars.2 ∙ keep.0)
      ]
