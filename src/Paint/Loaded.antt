-- ===== src/Paint/Loaded.antt =====
-- The fonts that `fontLoad` (bar.h) has loaded are fit to draw with.
use photonbar.Common.{
  ℕ, ◌≡◌, ◌≢◌, sym, true, Option, none, some, List, [], ◌∷◌, leb, length, All, All-append, inl, inr,
  Bool-cases, Option-cases,
}
use mathlib.Core.Option.{some_inj, none-ne-some}
use photonbar.Common.Int.{ℤ}
use photonbar.Fonts.{Font, font_load, max_font_count}
use photonbar.Fonts.Open.{ServerFont, XftFont, open_font, server_font, xft_font}
use photonbar.Paint.Element.{IsFont}

-- The answers to one call of `fontLoad`.
pub record Answers : Type 0 where
  pub id : ℕ
  pub server : Option ServerFont
  pub xft : Option XftFont

abbrev pub load_all : ℤ → List Answers → List Font → List Font
load_all behind [] fonts = fonts
load_all behind (a ∷ rest) fonts =
    load_all behind rest (font_load (open_font true behind a.id a.server a.xft) fonts)

open_font-IsFont :
    (behind : ℤ) (id : ℕ) (server : Option ServerFont) (xft : Option XftFont) (f : Font)
    → id ≢ 0
    → open_font true behind id server xft ≡ some f
    → IsFont f
unfolding open_font server_font xft_font
open_font-IsFont behind id (some s) xft f real e = rw (← some_inj.0 e) (λ _. real)
open_font-IsFont behind id none (some x) f real e =
    rw (← some_inj.0 e) (λ absent. absurd (none-ne-some x.number (sym absent)))
open_font-IsFont behind id none none f real e = absurd (none-ne-some f e)

font_load-IsFonts :
    (opened : Option Font) (fonts : List Font)
    → ((f : Font) → opened ≡ some f → IsFont f)
    → All IsFont fonts
    → All IsFont (font_load opened fonts)
unfolding font_load
font_load-IsFonts opened fonts fit all = elim (Bool-cases (leb max_font_count (length fonts))) [
  | inl full ↦ rw full all
  | inr room ↦ elim (Option-cases opened) [
    | inl failed ↦ rw (room, failed) all
    | inr (f, e) ↦ rw (room, e) (All-append IsFont fonts (f ∷ []) all (fit f e, tt))
  ]
]

-- Whatever the server and Xft answer, every font that has been loaded under an id other than 0 is
-- one that can be drawn with, as the theorems on the drawing want it.
load_all-IsFonts :
    (behind : ℤ) (answers : List Answers) (fonts : List Font)
    → All (λ a. a.id ≢ 0) answers
    → All IsFont fonts
    → All IsFont (load_all behind answers fonts)
load_all-IsFonts behind [] fonts real all = all
load_all-IsFonts behind (a ∷ rest) fonts real all =
    load_all-IsFonts behind rest (font_load (open_font true behind a.id a.server a.xft) fonts)
      real.1
      (font_load-IsFonts (open_font true behind a.id a.server a.xft) fonts
        (λ f. open_font-IsFont behind a.id a.server a.xft f real.0) all)
