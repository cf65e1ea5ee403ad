-- ===== src/Monitors/Chain.antt =====
-- bar.h, `monitorCreateChain`: which windows the bar opens on the sorted rectangles. `qsort` is
-- a parameter; `exit(EXIT_FAILURE)` is `none`. `monitorNew` is here the window's geometry.
pub mod Place
pub mod Links
pub mod Default
use photonbar.Common.{
  ℕ, ◌+◌, Bool, true, false, ◌||◌, Option, none, some, List, [], ◌∷◌, if◌then◌else◌,
}
use photonbar.Common.Int.{ℤ, pos, ◌+ℤ◌, ◌-ℤ◌, ltb_ℤ, leb_ℤ}
use photonbar.Monitors.{Rect}

pub record Geometry : Type 0 where
  pub bw : ℤ
  pub bh : ℤ
  pub bx : ℤ
  pub by : ℤ
  pub bu : ℤ
  pub topbar : Bool

pub record Monitor : Type 0 where
  pub x : ℤ
  pub y : ℤ
  pub width : ℤ

unfoldable pub monitor_new : Geometry → ℤ → ℤ → ℤ → ℤ → Monitor
monitor_new g x y width height = record {
  x = x;
  y = (if g.topbar then g.by else height -ℤ g.bh -ℤ g.by) +ℤ y;
  width = width;
}

abbrev pub min_ℤ : ℤ → ℤ → ℤ
min_ℤ a b = if ltb_ℤ a b then a else b

-- The first loop: the width of all, and the lowest edge.
unfoldable pub extent : List Rect → ℤ → ℤ → ℤ × ℤ
extent [] width height = (width, height)
extent (r ∷ rs) width height =
    let h = r.y +ℤ pos r.height in
    extent rs (width +ℤ pos r.width) (if leb_ℤ height h then h else height)

-- The second loop, with the width that is left to give and the offset into the rectangles.
unfoldable pub place : Geometry → ℤ → ℤ → List Rect → List Monitor
unfolding monitor_new
place g width left [] = []
place g width left (r ∷ rs) =
    let next_left = left -ℤ pos r.width in
    let clamped = if ltb_ℤ next_left (pos 0) then pos 0 else next_left in
    let part = pos r.width -ℤ left in
    let mon = monitor_new g (r.x +ℤ left) r.y (min_ℤ width part) (pos r.height) in
    let width' = width -ℤ part in
    let skip = place g width left rs in
    let pass = place g width clamped rs in
    let more = place g width' clamped rs in
    if ltb_ℤ (r.y +ℤ pos r.height) g.by
    then skip
    else if ltb_ℤ left (pos r.width)
    then mon ∷ (if leb_ℤ width' (pos 0) then [] else more)
    else pass

-- The sizes that are not set yet come from the screen and from the first font.
unfoldable pub settle : Geometry → ℤ → ℤ → ℤ → Geometry
settle g font_height width height = record g {
  bw = if ltb_ℤ g.bw (pos 0) then width -ℤ g.bx else g.bw;
  bh = if ltb_ℤ g.bh (pos 0) || ltb_ℤ height g.bh then font_height +ℤ g.bu +ℤ pos 2 else g.bh;
}

unfoldable pub monitor_create_chain :
    (List Rect → List Rect) → Geometry → ℤ → List Rect → Option (Geometry × List Monitor)
unfolding settle
monitor_create_chain sort g font_height rects =
    let sorted = sort rects in
    let (width, height) = extent sorted (pos 0) (pos 0) in
    let g' = settle g font_height width height in
    if ltb_ℤ width (g'.bx +ℤ g'.bw) || ltb_ℤ height (g'.by +ℤ g'.bh)
    then none
    else some (g', place g' g'.bw g'.bx sorted)
