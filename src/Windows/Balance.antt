-- ===== src/Windows/Balance.antt =====
-- `init` and `~Bar` (bar.h): what a bar takes from the X server, it gives back.
use photonbar.Common.{
  ℕ, ◌<◌, ◌≡◌, refl, sym, ◌∙◌, Option, none, some, List, [], ◌∷◌, ◌++◌, arith, inl, inr,
  Option-cases, ==_ne,
}
use mathlib.Core.Option.{some_inj, none-ne-some}
use photonbar.Fonts.{Font}
use photonbar.Monitors.Chain.{Geometry}
use photonbar.Windows.{Request, Mon, each}
use photonbar.Windows.Things.{made, gone, over_all, Frees, Frees-append, held, Post-some}
use photonbar.Windows.Init.{
  Config, Ready, init, close_font, close_fonts, destroy, close_window, free_gc,
}
use photonbar.Windows.Made.{contexts, Holds, init-Holds}

close_font-silent : (f : Font) → Frees [] (close_font f ∷ [])
unfolding close_font
close_font-silent f = elim (Option-cases f.xft) [
  | inl server ↦ rw (close_font, server) (record { frees = refl; makes_none = refl })
  | inr (x, e) ↦ rw (close_font, e) (record { frees = refl; makes_none = refl })
]

close_fonts-silent :
    (memory : List (Option Font)) (ops : List Request)
    → close_fonts memory ≡ some ops
    → Frees [] ops
unfolding close_fonts
close_fonts-silent [] ops e = absurd (none-ne-some ops e)
close_fonts-silent (none ∷ memory) ops e =
    rw (← some_inj.0 e) (record { frees = refl; makes_none = refl })
close_fonts-silent (some f ∷ memory) ops e = elim (Option-cases (close_fonts memory)) [
  | inl beyond ↦ absurd (none-ne-some ops (rw beyond at e))
  | inr (rest, closed) ↦
      let shape : close_font f ∷ rest ≡ ops = some_inj.0 (rw closed at e) in
      rw (← shape) (
        Frees-append [] [] (close_font f ∷ []) rest (close_font-silent f)
          (close_fonts-silent memory rest closed))
]

close_windows-Frees : (ms : List Mon) → Frees (held ms) (each close_window ms)
close_windows-Frees [] = record { frees = refl; makes_none = refl }
close_windows-Frees (m ∷ ms) =
    Frees-append (held (m ∷ [])) (held ms) (close_window m) (each close_window ms)
      (record { frees = refl; makes_none = refl }) (close_windows-Frees ms)

abbrev free_contexts : Ready → List Request
free_contexts r =
    Request.free_color
    ∷ (free_gc r.draw ++ (free_gc r.clear ++ (free_gc r.attr ++ (Request.disconnect ∷ []))))

free_contexts-Frees :
    (r : Ready) → 0 < r.draw → 0 < r.clear → 0 < r.attr → Frees (contexts r) (free_contexts r)
free_contexts-Frees r d c a = record {
  frees =
      rw
        (
          ==_ne r.draw 0 (λ e. omega (arith, d, e)),
          ==_ne r.clear 0 (λ e. omega (arith, c, e)),
          ==_ne r.attr 0 (λ e. omega (arith, a, e)),
        )
        refl;
  makes_none =
      rw
        (
          ==_ne r.draw 0 (λ e. omega (arith, d, e)),
          ==_ne r.clear 0 (λ e. omega (arith, c, e)),
          ==_ne r.attr 0 (λ e. omega (arith, a, e)),
        )
        refl;
}

destroy-Frees :
    (memory : List (Option Font)) (r : Ready) (before ops : List Request)
    → Holds r before
    → destroy memory r ≡ some ops
    → Frees (held r.monitors ++ contexts r) ops
unfolding destroy
destroy-Frees memory r before ops h e = elim (Option-cases (close_fonts memory)) [
  | inl beyond ↦ absurd (none-ne-some ops (rw (beyond, destroy) at e))
  | inr (fonts, closed) ↦
      let windows = each close_window r.monitors in
      let rest = windows ++ free_contexts r in
      let shape : fonts ++ rest ≡ ops = some_inj.0 (rw (closed, destroy) at e) in
      let freed =
        Frees-append (held r.monitors) (contexts r) windows (free_contexts r)
          (close_windows-Frees r.monitors) (free_contexts-Frees r h.draw h.clear h.attr) in
      rw (← shape) (
        Frees-append [] (held r.monitors ++ contexts r) fonts rest
          (close_fonts-silent memory fonts closed) freed)
]

-- Where `init` leaves a bar and `~Bar` finds the end of the fonts, `init` destroys nothing, `~Bar`
-- makes nothing, and it destroys exactly the windows, pixmaps and contexts that `init` made, in the
-- same order.
pub init-destroy :
    (c : Config) (g : Geometry) (fonts : List Font) (memory : List (Option Font)) (id : ℕ)
    {r : Ready} {id' : ℕ} {ops ops' : List Request}
    → 0 < id
    → init c g fonts id ≡ some (r, id', ops)
    → destroy memory r ≡ some ops'
    → (over_all gone ops ≡ [])
      × (over_all made ops' ≡ [])
      × (over_all gone ops' ≡ over_all made ops)
init-destroy c g fonts memory id {r} {id'} {ops} {ops'} pos_id made_it freed_it =
    let h = Post-some (λ r id' ops. Holds r ops) made_it (init-Holds c g fonts id pos_id) in
    let f = destroy-Frees memory r ops ops' h freed_it in
    (h.new.keeps, f.makes_none, f.frees ∙ sym h.new.makes)
