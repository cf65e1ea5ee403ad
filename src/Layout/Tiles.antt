-- ===== src/Layout/Tiles.antt =====
-- The places that `renderAllElements` of bar.h gives to the elements, to the pixel.
use photonbar.Common.{ℕ, ◌+◌, ◌-◌, ◌%◌, ◌<◌, ◌≤◌, ◌≡◌, refl, ap, ◌∙◌, List, [], ◌∷◌, map, arith}
use photonbar.Common.Int.{ℤ, pos, ◌+ℤ◌}
use photonbar.BarElement.{BarElement}
use photonbar.Layout.{
  Panel, Sides, place_elements, place_panels, total_width, set_windows, render_all_elements,
}
use photonbar.Layout.Order.{+ℤ_pos, -ℤ_pos, place_elements-end, span, span_lem, span-set_windows}

module _ {A : Type 0} where
  -- What is left of a module and its elements without window and places.
  abbrev pub unplaced : BarElement A → BarElement A
  unplaced e = record e { begin_x = 0 }

  abbrev pub bare : Panel A → Panel A
  bare p = record p { window = 0; elements = map unplaced p.elements }

  -- Each element begins where the one before it ends, the first at `x`.
  abbrev pub Row : ℕ → List (BarElement A) → Type 0
  Row x [] = Unit
  Row x (e ∷ es) = (e.begin_x ≡ x) × Row (x + e.width) es

  -- The modules one after another from `x` on, `sep` pixels between two of them.
  abbrev pub Tiles : ℕ → ℕ → List (Panel A) → Type 0
  Tiles sep x [] = Unit
  Tiles sep x (p ∷ ps) = Row x p.elements × Tiles sep (x + total_width p.elements + sep) ps

  place_elements-bare :
      (x : ℤ) (es : List (BarElement A)) → map unplaced (place_elements x es).0 ≡ map unplaced es
  unfolding place_elements
  place_elements-bare x [] = refl
  place_elements-bare x (e ∷ es) =
      ap (λ r. unplaced e ∷ r) (place_elements-bare (x +ℤ pos e.width) es)

  place_panels-bare :
      (sep : ℕ) (x : ℤ) (ps : List (Panel A)) → map bare (place_panels sep x ps).0 ≡ map bare ps
  unfolding place_panels
  place_panels-bare sep x [] = refl
  place_panels-bare sep x (p ∷ []) = rw (place_elements-bare x p.elements) refl
  place_panels-bare sep x (p ∷ q ∷ ps) =
      rw
        (
          place_elements-bare x p.elements,
          place_panels-bare sep ((place_elements x p.elements).1 +ℤ pos sep) (q ∷ ps),
        )
        refl

  set_windows-bare : (w : ℕ) (ps : List (Panel A)) → map bare (set_windows w ps) ≡ map bare ps
  set_windows-bare w [] = refl
  set_windows-bare w (p ∷ ps) = ap (λ r. bare p ∷ r) (set_windows-bare w ps)

  place_elements-width :
      (x : ℤ) (es : List (BarElement A)) → total_width (place_elements x es).0 ≡ total_width es
  unfolding place_elements
  place_elements-width x [] = refl
  place_elements-width x (e ∷ es) =
      ap (λ n. e.width + n) (place_elements-width (x +ℤ pos e.width) es)

  place_elements-Row :
      (x : ℕ) (es : List (BarElement A))
      → x + total_width es < 65536
      → Row x (place_elements (pos x) es).0
  unfolding place_elements
  place_elements-Row x [] h = tt
  place_elements-Row x (e ∷ es) h =
      let small : x % 65536 ≡ x = omega arith in
      rw (+ℤ_pos x e.width, small) (refl, place_elements-Row (x + e.width) es (omega arith))

  place_panels-Tiles :
      (sep x : ℕ) (ps : List (Panel A))
      → x + span sep ps < 65536
      → Tiles sep x (place_panels sep (pos x) ps).0
  unfolding place_panels
  place_panels-Tiles sep x [] h = tt
  place_panels-Tiles sep x (p ∷ []) h = (place_elements-Row x p.elements h, tt)
  place_panels-Tiles sep x (p ∷ q ∷ ps) h =
      let mid = x + total_width p.elements in
      let others = place_panels-Tiles sep (mid + sep) (q ∷ ps) (omega arith) in
      rw (place_elements-width (pos x) p.elements, place_elements-end x p.elements, +ℤ_pos mid sep)
        (place_elements-Row x p.elements (omega arith), others)

  -- On a monitor where both sides and the margin fit, and where the separator takes the width that
  -- was counted for it, all elements stay, in their modules and in their order, with nothing but
  -- window and place changed. The left side begins at the left edge, the right side ends at the
  -- margin, each element begins where the one before it ends, or a separator behind that between two
  -- modules, and the left side ends where the right one begins or before.
  pub render-Tiles :
      (window mon_width margin sep : ℕ) (s : Sides A)
      → span sep s.left + span sep s.right + margin ≤ mon_width
      → mon_width < 65536
      → let out =
          render_all_elements window mon_width margin (record { drawn = sep; counted = sep }) s in
        let start = mon_width - margin - span sep s.right in
        (map bare out.left ≡ map bare s.left)
        × (map bare out.right ≡ map bare s.right)
        × Tiles sep 0 out.left
        × Tiles sep start out.right
        × (start + span sep s.right ≡ mon_width - margin)
        × (span sep s.left ≤ start)
  unfolding render_all_elements
  render-Tiles window mon_width margin sep s fits wide =
      let start = mon_width - margin - span sep s.right in
      let same = λ (ps : List (Panel A)). span-set_windows sep window ps in
      let left =
        place_panels-Tiles sep 0 (set_windows window s.left) (omega (arith, same s.left)) in
      let right =
        place_panels-Tiles sep start (set_windows window s.right) (omega (arith, same s.right)) in
      rw
        (
          span_lem sep s.right,
          -ℤ_pos mon_width margin (omega arith),
          -ℤ_pos (mon_width - margin) (span sep s.right) (omega arith),
        )
        (
          place_panels-bare sep _ (set_windows window s.left) ∙ set_windows-bare window s.left,
          place_panels-bare sep _ (set_windows window s.right) ∙ set_windows-bare window s.right,
          left,
          right,
          omega arith,
          omega arith,
        )
