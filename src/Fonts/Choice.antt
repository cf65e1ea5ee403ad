-- ===== src/Fonts/Choice.antt =====
-- Which font `selectDrawableFont` (bar.h) chooses.
use photonbar.Common.{
  ℕ, zero, suc, ◌+◌, ◌-◌, ◌<◌, ◌≡◌, refl, arith, Bool, true, false, none, some, List, [], ◌∷◌,
  get_elem?, All, All-get_elem, Bool-cases, Option-cases, ◌⊎◌, inl, inr,
}
use mathlib.Core.Path.{subst}
use mathlib.Core.Option.{some_inj}
use photonbar.Fonts.{
  Font, Fonts, Chosen, font_has_glyph, first_font, asked_font, select_drawable_font,
}

module _ (exists_char : ℕ → ℕ → Bool) where
  -- The first font with the character: it stands at its index, and no font before it has one.
  abbrev pub IsFirst : ℕ → ℕ → List Font → Chosen → Type 0
  IsFirst c start fonts k =
      (d : ℕ) × (k.index ≡ start + d)
      × (get_elem? fonts d ≡ some k.font)
      × (font_has_glyph exists_char k.font c ≡ true)
      × ((i : ℕ) (f : Font)
          → i < d
          → get_elem? fonts i ≡ some f
          → font_has_glyph exists_char f c ≡ false)

  before_cons :
      (f : Font) (fs : List Font) (c d : ℕ)
      → font_has_glyph exists_char f c ≡ false
      → ((i : ℕ) (g : Font)
          → i < d
          → get_elem? fs i ≡ some g
          → font_has_glyph exists_char g c ≡ false)
      → (i : ℕ) (g : Font) → i < suc d
      → get_elem? (f ∷ fs) i ≡ some g
      → font_has_glyph exists_char g c ≡ false
  before_cons f fs c d other before zero g below at = rw (← some_inj.0 at) other
  before_cons f fs c d other before (suc i) g below at = before i g (omega arith) at

  first_font-IsFirst :
      (c start : ℕ) (fonts : List Font) (k : Chosen)
      → first_font exists_char c start fonts ≡ some k
      → IsFirst c start fonts k
  unfolding first_font
  first_font-IsFirst c start [] k h = absurd (ground (arith, h))
  first_font-IsFirst c start (f ∷ fs) k h = elim (Bool-cases (font_has_glyph exists_char f c)) [
    | inl here ↦
        let same : record { font = f; index = start } ≡ k = some_inj.0 (ground (arith, h, here)) in
        rw (← same) (0, omega arith, refl, here, λ i g below. absurd (omega arith))
    | inr other ↦
        let (d, at, found, has, before) =
          first_font-IsFirst c (start + 1) fs k (ground (arith, h, other)) in
        (suc d, omega (arith, at), found, has, before_cons f fs c d other before)
  ]

  -- No font is chosen only where none of the list has the character.
  first_font-none :
      (c start i : ℕ) (fonts : List Font) (f : Font)
      → first_font exists_char c start fonts ≡ none
      → get_elem? fonts i ≡ some f
      → font_has_glyph exists_char f c ≡ false
  unfolding first_font
  first_font-none c start i [] f h at = absurd (ground (arith, at))
  first_font-none c start zero (g ∷ fs) f h at = rw (← some_inj.0 at) (ground (arith, h))
  first_font-none c start (suc i) (g ∷ fs) f h at =
      first_font-none c (start + 1) i fs f (ground (arith, h)) at

  -- Where no font was asked for, either no font of the list has the character and none is chosen,
  -- or the chosen font stands in the list at the index that is kept for its offset, has the
  -- character, and no font before it has it.
  select_drawable_font-IsFirst :
      (fs : Fonts) (c : ℕ)
      → fs.font_index ≡ none
      → ((select_drawable_font exists_char fs c ≡ none)
          × ((i : ℕ) (f : Font)
              → get_elem? fs.font_list i ≡ some f
              → font_has_glyph exists_char f c ≡ false))
        ⊎ ((k : Chosen) × (select_drawable_font exists_char fs c ≡ some k)
            × IsFirst c 0 fs.font_list k)
  unfolding select_drawable_font asked_font
  select_drawable_font-IsFirst fs c free =
      elim (Option-cases (first_font exists_char c 0 fs.font_list)) [
        | inl lacking ↦
            inl (rw free lacking, λ i f at. first_font-none c 0 i fs.font_list f lacking at)
        | inr (k, found) ↦ inr (k, rw free found, first_font-IsFirst c 0 fs.font_list k found)
      ]

  asked_font-All :
      (P : Font → Type 0) (fs : Fonts) (c : ℕ) (k : Chosen)
      → All P fs.font_list
      → asked_font exists_char fs c ≡ some k
      → P k.font
  unfolding asked_font
  asked_font-All P fs c k all h = elim (Option-cases fs.font_index) [
    | inl free ↦ absurd (ground (arith, h, free))
    | inr (i, asked) ↦ elim (Option-cases (get_elem? fs.font_list (i - 1))) [
      | inl absent ↦ absurd (ground (arith, h, asked, absent))
      | inr (f, present) ↦
          let same : f ≡ k.font = ground (arith, h, asked, present) in
          subst P same (All-get_elem P fs.font_list (i - 1) f all present)
    ]
  ]

  -- A font that is chosen stands in the list.
  pub select_drawable_font-All :
      (P : Font → Type 0) (fs : Fonts) (c : ℕ) (k : Chosen)
      → All P fs.font_list
      → select_drawable_font exists_char fs c ≡ some k
      → P k.font
  unfolding select_drawable_font
  select_drawable_font-All P fs c k all h = elim (Option-cases (asked_font exists_char fs c)) [
    | inr (j, asked) ↦ asked_font-All P fs c k all (ground (arith, h, asked))
    | inl free ↦
        let (d, at, found, has, before) =
          first_font-IsFirst c 0 fs.font_list k (ground (arith, h, free)) in
        All-get_elem P fs.font_list d k.font all found
  ]
