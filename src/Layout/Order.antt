-- ===== src/Layout/Order.antt =====
-- The positions that `renderAllElements` of bar.h gives: side by side, from the left edge, and up
-- to the right margin.
use photonbar.Common.{
  ℕ, suc, ◌+◌, ◌-◌, ◌*◌, ◌%◌, ◌<◌, ◌≤◌, ◌≡◌, refl, ap, ◌∙◌, List, [], ◌∷◌, ◌++◌, arith, length,
}
use mathlib.Core.List.{append-nil}
use photonbar.Common.Int.{pos, ◌+ℤ◌, ◌-ℤ◌}
use photonbar.BarElement.{BarElement}
use photonbar.Layout.{
  Panel, Sides, place_elements, place_panels, total_width, panels_width, set_windows,
  render_all_elements,
}

pub +ℤ_pos : (a b : ℕ) → pos a +ℤ pos b ≡ pos (a + b)
unfolding ◌+ℤ◌
+ℤ_pos a b = ground arith

pub -ℤ_pos : (a b : ℕ) → b ≤ a → pos a -ℤ pos b ≡ pos (a - b)
unfolding ◌-ℤ◌
-ℤ_pos a b h = ground arith

separators : (n sep : ℕ) → (suc (suc n) - 1) * sep ≡ sep + (suc n - 1) * sep
separators n sep =
    let more : suc (suc n) - 1 ≡ suc n = omega arith in
    let fewer : suc n - 1 ≡ n = omega arith in rw (more, fewer) (omega arith)

module _ {A : Type 0} where
  -- The elements follow one another from `x` to `y`, none beginning before the last one's end.
  abbrev pub Lays : ℕ → List (BarElement A) → ℕ → Type 0
  Lays x [] y = x ≤ y
  Lays x (e ∷ es) y = (x ≤ e.begin_x) × Lays (e.begin_x + e.width) es y

  abbrev pub elements_of : List (Panel A) → List (BarElement A)
  elements_of [] = []
  elements_of (p ∷ ps) = p.elements ++ elements_of ps

  pub Lays-append :
      (x y z : ℕ) (es fs : List (BarElement A)) → Lays x es y → Lays y fs z → Lays x (es ++ fs) z
  Lays-append x y z [] [] h k = omega arith
  Lays-append x y z [] (f ∷ fs) h k = (omega arith, k.1)
  Lays-append x y z (e ∷ es) fs h k = (h.0, Lays-append (e.begin_x + e.width) y z es fs h.1 k)

  pub place_elements-end :
      (x : ℕ) (es : List (BarElement A)) → (place_elements (pos x) es).1 ≡ pos (x + total_width es)
  unfolding place_elements
  place_elements-end x [] = ap pos (omega arith)
  place_elements-end x (e ∷ es) =
      rw (+ℤ_pos x e.width) (place_elements-end (x + e.width) es ∙ ap pos (omega arith))

  place_elements-Lays :
      (x : ℕ) (es : List (BarElement A))
      → x + total_width es < 65536
      → Lays x (place_elements (pos x) es).0 (x + total_width es)
  unfolding place_elements
  place_elements-Lays x [] h = omega arith
  place_elements-Lays x (e ∷ es) h =
      let small : x % 65536 ≡ x = omega arith in
      let after : x + e.width + total_width es ≡ x + (e.width + total_width es) = omega arith in
      rw (+ℤ_pos x e.width, small, ← after)
        (omega arith, place_elements-Lays (x + e.width) es (omega arith))

  -- The width of the modules with a separator between any two.
  abbrev pub span : ℕ → List (Panel A) → ℕ
  span sep [] = 0
  span sep (p ∷ []) = total_width p.elements
  span sep (p ∷ q ∷ ps) = total_width p.elements + sep + span sep (q ∷ ps)

  pub span_lem :
      (sep : ℕ) (ps : List (Panel A)) → panels_width ps + (length ps - 1) * sep ≡ span sep ps
  span_lem sep [] = omega arith
  span_lem sep (p ∷ []) = omega arith
  span_lem sep (p ∷ q ∷ ps) = omega (arith, separators (length ps) sep, span_lem sep (q ∷ ps))

  place_panels-end :
      (sep x : ℕ) (ps : List (Panel A)) → (place_panels sep (pos x) ps).1 ≡ pos (x + span sep ps)
  unfolding place_panels
  place_panels-end sep x [] = ap pos (omega arith)
  place_panels-end sep x (p ∷ []) = place_elements-end x p.elements ∙ ap pos (omega arith)
  place_panels-end sep x (p ∷ q ∷ ps) =
      rw (place_elements-end x p.elements, +ℤ_pos (x + total_width p.elements) sep)
        (place_panels-end sep (x + total_width p.elements + sep) (q ∷ ps) ∙ ap pos (omega arith))

  pub Lays-weaken : (x y z : ℕ) (es : List (BarElement A)) → y ≤ z → Lays x es y → Lays x es z
  Lays-weaken x y z [] h k = omega arith
  Lays-weaken x y z (e ∷ es) h k = (k.0, Lays-weaken (e.begin_x + e.width) y z es h k.1)

  place_panels-Lays :
      (sep x : ℕ) (ps : List (Panel A))
      → x + span sep ps < 65536
      → Lays x (elements_of (place_panels sep (pos x) ps).0) (x + span sep ps)
  unfolding place_panels
  place_panels-Lays sep x [] h = omega arith
  place_panels-Lays sep x (p ∷ []) h =
      rw (append-nil (place_elements (pos x) p.elements).0) (place_elements-Lays x p.elements h)
  place_panels-Lays sep x (p ∷ q ∷ ps) h =
      let mid = x + total_width p.elements in
      let total : mid + sep + span sep (q ∷ ps) ≡ x + span sep (p ∷ q ∷ ps) = omega arith in
      let first = place_elements-Lays x p.elements (omega arith) in
      let others = place_panels-Lays sep (mid + sep) (q ∷ ps) (omega arith) in
      rw (place_elements-end x p.elements, +ℤ_pos mid sep, ← total)
        (Lays-append x (mid + sep) (mid + sep + span sep (q ∷ ps))
          (place_elements (pos x) p.elements).0 _
          (Lays-weaken x mid (mid + sep) _ (omega arith) first) others)

  length-set_windows : (w : ℕ) (ps : List (Panel A)) → length (set_windows w ps) ≡ length ps
  length-set_windows w [] = refl
  length-set_windows w (p ∷ ps) = ap suc (length-set_windows w ps)

  pub span-set_windows :
      (sep w : ℕ) (ps : List (Panel A)) → span sep (set_windows w ps) ≡ span sep ps
  span-set_windows sep w [] = refl
  span-set_windows sep w (p ∷ []) = refl
  span-set_windows sep w (p ∷ q ∷ ps) = omega (arith, span-set_windows sep w (q ∷ ps))

  -- On a monitor where both sides and the margin fit, the elements of the left side follow one
  -- another from the left edge, those of the right side follow one another up to exactly the
  -- margin, and the sides do not meet.
  pub render-Lays :
      (window mon_width margin sep : ℕ) (s : Sides A)
      → span sep s.left + span sep s.right + margin ≤ mon_width
      → mon_width < 65536
      → let out =
          render_all_elements window mon_width margin (record { drawn = sep; counted = sep }) s in
        let start = mon_width - margin - span sep s.right in
        Lays 0 (elements_of out.left) (span sep s.left)
        × (span sep s.left ≤ start)
        × Lays start (elements_of out.right) (mon_width - margin)
  unfolding render_all_elements
  render-Lays window mon_width margin sep s fits wide =
      let start = mon_width - margin - span sep s.right in
      let same = span-set_windows sep window in
      let left = place_panels-Lays sep 0 (set_windows window s.left) (omega (arith, same s.left)) in
      let right =
        place_panels-Lays sep start (set_windows window s.right) (omega (arith, same s.right)) in
      rw
        (
          span_lem sep s.right,
          -ℤ_pos mon_width margin (omega arith),
          -ℤ_pos (mon_width - margin) (span sep s.right) (omega arith),
        )
        (
          Lays-weaken 0 _ (span sep s.left) _ (omega (arith, same s.left)) left,
          omega arith,
          Lays-weaken start _ (mon_width - margin) _ (omega (arith, same s.right)) right,
        )
