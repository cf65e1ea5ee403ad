-- ===== src/Space/Modes.antt =====
-- The display modes of modules/space.h.
use photonbar.Common.{ℕ, zero, suc, ◌+◌, ◌%◌, ◌<◌, ◌≡◌, refl, arith, Bool, Option, none, some, ◌∙◌}
use photonbar.Common.Floats.{Floats}
use photonbar.Space.{Statvfs, Space, get_space_usage, space_text, update, click}

module _ {W : Type 0} (f : Floats W) where
  get_space_usage-mode :
      (answer : Option Statvfs) (now : ℕ) (s : Space W)
      → (get_space_usage f answer now s).display_mode ≡ s.display_mode
  unfolding get_space_usage
  get_space_usage-mode none now s = refl
  get_space_usage-mode (some v) now s = refl

  click-mode :
      (render_set : Bool) (answer : Option Statvfs) (now : ℕ) (s : Space W)
      → (click f render_set answer now s).display_mode ≡ (s.display_mode + 1) % 3
  unfolding click update
  click-mode render_set answer now s = get_space_usage-mode answer now _

  -- Clicks one after another, each with what `statvfs` answers then.
  unfoldable pub clicks : Bool → ℕ → (ℕ → Option Statvfs) → Space W → Space W
  clicks render_set zero answers s = s
  clicks render_set (suc n) answers s =
      clicks render_set n answers (click f render_set (answers n) n s)

  -- The mode is the number of the clicks, counted modulo 3.
  clicks-mode :
      (render_set : Bool) (n : ℕ) (answers : ℕ → Option Statvfs) (s : Space W)
      → s.display_mode < 3
      → (clicks render_set n answers s).display_mode ≡ (s.display_mode + n) % 3
  unfolding clicks
  clicks-mode render_set zero answers s h = omega arith
  clicks-mode render_set (suc n) answers s h =
      let one = click-mode render_set (answers n) n s in
      let next = click f render_set (answers n) n s in
      clicks-mode render_set n answers next (omega (arith, one)) ∙ omega (arith, one)

  -- Of the three modes the first two show the same text.
  space_text-same :
      (s : Space W)
      → space_text f (record s { display_mode = 0 }) ≡ space_text f (record s { display_mode = 1 })
  unfolding space_text
  space_text-same s = refl
