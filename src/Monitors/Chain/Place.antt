-- ===== src/Monitors/Chain/Place.antt =====
-- The windows that `monitorCreateChain` (bar.h) opens: their widths, and the default geometry.
use photonbar.Common.{
  ℕ, ◌+◌, ◌<◌, ◌≡◌, refl, ap, ◌∙◌, true, false, List, [], ◌∷◌, map, All, if◌then◌else◌, arith, inl,
  inr, Bool-cases, ==_ne, ◌==◌,
}
use photonbar.Common.Int.{ℤ, pos, ◌+ℤ◌, ◌-ℤ◌, ◌≤ℤ◌, ◌<ℤ◌, ltb_ℤ, leb_ℤ, int_laws}
use photonbar.Monitors.{Rect}
use photonbar.Monitors.Chain.{Geometry, Monitor, monitor_new, min_ℤ, place}

abbrev pub total : List Monitor → ℤ
total [] = pos 0
total (m ∷ ms) = m.width +ℤ total ms

pub record Fits (width : ℤ) (ms : List Monitor) : Type 0 where
  pub within : total ms ≤ℤ width
  pub nonempty : All (λ m. pos 1 ≤ℤ m.width) ms

leb_cases : (a b : ℤ) → leb_ℤ a b ≡ true → a ≤ℤ b
leb_cases a b h = ground arith

leb_not : (a b : ℤ) → leb_ℤ a b ≡ false → b <ℤ a
leb_not a b h = ground arith

ltb_cases : (a b : ℤ) → ltb_ℤ a b ≡ true → a <ℤ b
ltb_cases a b h = ground arith

min_bounds :
    (a b : ℤ) → pos 1 ≤ℤ a → pos 1 ≤ℤ b → (pos 1 ≤ℤ min_ℤ a b) × (min_ℤ a b ≤ℤ a) × (min_ℤ a b ≤ℤ b)
min_bounds a b h k = ground arith

-- For a bar of positive width the windows have positive widths, which add up to no more than the bar's.
pub place-Fits :
    (g : Geometry) (width left : ℤ) (rs : List Rect)
    → pos 1 ≤ℤ width
    → Fits width (place g width left rs)
unfolding place
place-Fits g width left [] h = record { within = omega arith; nonempty = tt }
place-Fits g width left (r ∷ rs) h = elim (Bool-cases (ltb_ℤ (r.y +ℤ pos r.height) g.by)) [
  | inl above ↦ rw above (place-Fits g width left rs h)
  | inr meets ↦ rw meets (elim (Bool-cases (ltb_ℤ left (pos r.width))) [
    | inr outside ↦ rw outside (place-Fits g width _ rs h)
    | inl inside ↦ rw inside (
        let part = pos r.width -ℤ left in
        let wide =
          min_bounds width part h (omega (int_laws, ltb_cases left (pos r.width) inside)) in
        elim (Bool-cases (leb_ℤ (width -ℤ part) (pos 0))) [
          | inl full ↦
              rw full (record { within = omega (int_laws, wide.1); nonempty = (wide.0, tt) })
          | inr room ↦ rw room (
              let rest =
                place-Fits g (width -ℤ part) _ rs
                  (omega (int_laws, leb_not (width -ℤ part) (pos 0) room)) in
              record {
                within = omega (int_laws, wide.2, rest.within);
                nonempty = (wide.0, rest.nonempty);
              })
        ])
  ])
]

abbrev pub total_width : List Rect → ℕ
total_width [] = 0
total_width (r ∷ rs) = r.width + total_width rs

-- In use, and not wholly above the bar.
pub record IsPlaceable (g : Geometry) (r : Rect) : Type 0 where
  pub wide : 0 < r.width
  pub below : g.by ≤ℤ r.y +ℤ pos r.height

-- The window that fills the width of a rectangle.
abbrev pub monitor_for : Geometry → Rect → Monitor
monitor_for g r = monitor_new g r.x r.y (pos r.width) (pos r.height)

+ℤ-zero : (a : ℤ) → a +ℤ pos 0 ≡ a
unfolding ◌+ℤ◌
+ℤ-zero a = ground arith

-ℤ-zero : (a : ℤ) → a -ℤ pos 0 ≡ a
unfolding ◌-ℤ◌
-ℤ-zero a = ground arith

rest_width : (a b : ℕ) → pos (a + b) -ℤ pos a ≡ pos b
unfolding ◌-ℤ◌
rest_width a b = ground arith

clamped_zero :
    (w : ℕ) → 0 < w → (if ltb_ℤ (pos 0 -ℤ pos w) (pos 0) then pos 0 else pos 0 -ℤ pos w) ≡ pos 0
unfolding ◌-ℤ◌
clamped_zero w h = ground arith

total_pos :
    (g : Geometry) (r : Rect) (rs : List Rect)
    → All (IsPlaceable g) (r ∷ rs)
    → 0 < total_width (r ∷ rs)
total_pos g r rs h = omega (arith, h.0.wide)

place_step :
    (g : Geometry) (r : Rect) (rs : List Rect) (n : ℕ)
    → IsPlaceable g r
    → place g (pos (r.width + n)) (pos 0) (r ∷ rs)
      ≡ monitor_for g r ∷ (if n == 0 then [] else place g (pos n) (pos 0) rs)
unfolding place
place_step g r rs n h =
    rw (+ℤ-zero r.x, -ℤ-zero (pos r.width), rest_width r.width n, clamped_zero r.width h.wide)
      (ground arith)

-- With no offset, and the width of all rectangles to give, each rectangle gets a window as wide.
pub place_whole :
    (g : Geometry) (rs : List Rect)
    → All (IsPlaceable g) rs
    → place g (pos (total_width rs)) (pos 0) rs ≡ map (monitor_for g) rs
place_whole g [] h = unfold place in refl
place_whole g (r ∷ []) h = place_step g r [] 0 h.0
place_whole g (r ∷ q ∷ rs) h =
    place_step g r (q ∷ rs) (total_width (q ∷ rs)) h.0
    ∙ rw (==_ne (total_width (q ∷ rs)) 0 (omega (arith, total_pos g q rs h.1)))
        (ap (◌∷◌ (monitor_for g r)) (place_whole g (q ∷ rs) h.1))
