-- ===== src/Paint/Synced.antt =====
-- The graphics contexts against the colours of a bar (bar.h): the contexts are changed only when
-- `colorsDirty` is set, and still always hold the current colours when something is drawn.
use photonbar.Common.{
  ℕ, ◌≡◌, ◌∙◌, refl, ap, arith, false, Option, some, ◌==◌, if◌then◌else◌, Bytes, Bool-cases, inl,
  inr,
}
use photonbar.Color.{value}
use photonbar.Color.Print.{xft_color_name}
use photonbar.BarElement.{BarElement}
use photonbar.Fonts.{Font}
use photonbar.Paint.{
  Colors, Contexts, Painter, Setup, update_gc, mark_colors_dirty, over, has_colors, apply_colors,
  changed, effective, begin_element,
}
use photonbar.Paint.Draw.{set_font}

unchanged :
    (old now : Colors)
    → changed old now ≡ false
    → (value old.fg ≡ value now.fg) × (value old.bg ≡ value now.bg) × (value old.ul ≡ value now.ul)
unchanged old now h = ground (arith, h)

over_none : {A : Type 0} (e : BarElement A) (c : Colors) → has_colors e ≡ false → over e c ≡ c
unfolding over
over_none e c h = ground (arith, h)

-- `pixel` is what `XftColorAllocName` gives for a name.
module _ (pixel : Bytes → ℕ) where
  -- What the contexts hold when they are up to date.
  abbrev pub contexts_of : Colors → ℕ → Contexts
  contexts_of c font = record {
    draw = value c.fg;
    clear = value c.bg;
    attr = value c.ul;
    sel_fg = pixel (xft_color_name c.fg);
    draw_font = font;
  }

  abbrev pub IsSynced : Painter → Type 0
  IsSynced p = p.contexts ≡ contexts_of p.colors p.contexts.draw_font

  module _ (alloc : Bytes → Option ℕ)
      (given : (name : Bytes) → alloc name ≡ some (pixel name)) where
    pub update_gc-IsSynced : (p : Painter) → IsSynced (update_gc alloc (mark_colors_dirty p))
    unfolding update_gc mark_colors_dirty
    update_gc-IsSynced p = rw (given (xft_color_name p.colors.fg)) refl

    same_contexts :
        (c d : Colors) (font : ℕ)
        → value c.fg ≡ value d.fg
        → value c.bg ≡ value d.bg
        → value c.ul ≡ value d.ul
        → contexts_of c font ≡ contexts_of d font
    unfolding xft_color_name
    same_contexts c d font fg bg ul = rw (fg, bg, ul) refl

    pub begin_element-IsSynced :
        {A : Type 0} (s : Setup) (e : BarElement A) (p : Painter)
        → IsSynced p
        → IsSynced (begin_element alloc s e p)
    unfolding begin_element
    begin_element-IsSynced s e p h =
        let now = effective s.defaults e in
        elim (Bool-cases (changed p.colors now)) [
          | inl new ↦ rw new (
              update_gc-IsSynced
                (record p { colors = now; attrs = record { overl = false; underl = e.underline } }))
          | inr old ↦
              let equal = unchanged p.colors now old in
              rw old (h ∙ same_contexts p.colors now p.contexts.draw_font equal.0 equal.1 equal.2)
        ]

    pub apply_colors-IsSynced :
        {A : Type 0} (e : BarElement A) (p : Painter)
        → IsSynced p
        → IsSynced (apply_colors alloc e p)
    unfolding apply_colors
    apply_colors-IsSynced e p h = elim (Bool-cases (has_colors e)) [
      | inl some_set ↦ rw some_set (update_gc-IsSynced (record p { colors = over e p.colors }))
      | inr unset ↦ rw (unset, over_none e p.colors unset) h
    ]

  pub set_font-IsSynced : (f : Font) (p : Painter) → IsSynced p → IsSynced (set_font f p)
  unfolding set_font
  set_font-IsSynced f p h =
      let font = if f.ptr == 0 then p.contexts.draw_font else f.ptr in
      ap (λ (g : Contexts). record g { draw_font = font }) h
