-- ===== src/Monitors/Chain/Default.antt =====
-- `monitorCreateChain` (bar.h) for a bar whose geometry was not set, as the constructor of Bar
-- leaves it.
use photonbar.Common.{◌<◌, ◌≡◌, refl, ◌∙◌, Bool, false, ◌||◌, some, List, [], ◌∷◌, map, All, arith}
use photonbar.Common.Int.{ℤ, pos, negsuc, ◌+ℤ◌, ◌-ℤ◌, ◌≤ℤ◌, ltb_ℤ, int_laws}
use photonbar.Monitors.{Rect}
use photonbar.Monitors.Chain.{Geometry, monitor_create_chain, extent, place}
use photonbar.Monitors.Chain.Place.{total_width, IsPlaceable, monitor_for, place_whole}

unfoldable pub default_geometry : Bool → Geometry
default_geometry topbar = record {
  bw = negsuc 0;
  bh = negsuc 0;
  bx = pos 0;
  by = pos 0;
  bu = pos 1;
  topbar = topbar;
}

-- The width of all rectangles, and a line above and two below the font.
unfoldable pub settled : Bool → ℤ → List Rect → Geometry
unfolding default_geometry
settled topbar font_height rects = record (default_geometry topbar) {
  bw = pos (total_width rects);
  bh = font_height +ℤ pos 3;
}

extent-total : (rs : List Rect) (w h : ℤ) → (extent rs w h).0 ≡ w +ℤ pos (total_width rs)
unfolding extent
extent-total [] w h = omega int_laws
extent-total (r ∷ rs) w h = extent-total rs (w +ℤ pos r.width) _ ∙ omega int_laws

pub record IsOnScreen (r : Rect) : Type 0 where
  pub wide : 0 < r.width
  pub below : pos 0 ≤ℤ r.y +ℤ pos r.height

fits :
    (topbar : Bool) (font_height height : ℤ) (rs : List Rect)
    → font_height +ℤ pos 3 ≤ℤ height
    → (ltb_ℤ
          (pos (total_width rs))
          ((settled topbar font_height rs).bx +ℤ (settled topbar font_height rs).bw)
        || ltb_ℤ height ((settled topbar font_height rs).by +ℤ (settled topbar font_height rs).bh))
      ≡ false
unfolding settled default_geometry
fits topbar font_height height rs h =
    let across : pos 0 +ℤ pos (total_width rs) ≡ pos (total_width rs) = omega int_laws in
    let down : pos 0 +ℤ (font_height +ℤ pos 3) ≡ font_height +ℤ pos 3 = omega int_laws in
    rw (across, down) (ground arith)

placeable :
    (topbar : Bool) (font_height : ℤ) (rects rs : List Rect)
    → All IsOnScreen rs
    → All (IsPlaceable (settled topbar font_height rects)) rs
unfolding settled default_geometry
placeable topbar font_height rects [] h = tt
placeable topbar font_height rects (r ∷ rs) h =
    (record { wide = h.0.wide; below = h.0.below }, placeable topbar font_height rects rs h.1)

-- Where `qsort` gives rectangles that have a width and do not end above the screen, of which one
-- reaches far enough down, a bar without a geometry gets one window for each of them, in their
-- order, at the rectangle's left edge and as wide, and does not exit.
pub monitor_create_chain-default :
    (sort : List Rect → List Rect) (topbar : Bool) (font_height : ℤ) (rects : List Rect)
    → All IsOnScreen (sort rects)
    → font_height +ℤ pos 3 ≤ℤ (extent (sort rects) (pos 0) (pos 0)).1
    → let g = settled topbar font_height (sort rects) in
      monitor_create_chain sort (default_geometry topbar) font_height rects
      ≡ some (g, map (monitor_for g) (sort rects))
unfolding monitor_create_chain settled default_geometry
monitor_create_chain-default sort topbar font_height rects on tall =
    let rs = sort rects in
    let g = settled topbar font_height rs in
    let height = (extent rs (pos 0) (pos 0)).1 in
    let total : (extent rs (pos 0) (pos 0)).0 ≡ pos (total_width rs) =
      extent-total rs (pos 0) (pos 0) ∙ omega int_laws in
    let placed : place g g.bw g.bx rs ≡ map (monitor_for g) rs =
      unfold settled default_geometry in place_whole g rs (placeable topbar font_height rs rs on) in
    let width : pos (total_width rs) -ℤ pos 0 ≡ pos (total_width rs) = omega int_laws in
    let lines : font_height +ℤ pos 1 +ℤ pos 2 ≡ font_height +ℤ pos 3 = omega int_laws in
    rw (total, width, lines, fits topbar font_height height rs tall, placed) refl
