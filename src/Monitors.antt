-- ===== src/Monitors.antt =====
-- bar.h, the monitors: `getRandrMonitors` from the rectangles of the outputs on,
-- `monitorCreateChain` and `monitorNew`'s geometry. A rectangle has int16 corners and uint16
-- sizes; their sums are ints and fit.
pub mod Clones
pub mod Cover
pub mod Chain
pub mod Outputs
pub mod Unread
use photonbar.Common.{
  ℕ, zero, suc, ◌+◌, ◌-◌, Bool, true, false, not, ◌&&◌, Option, none, some, List, [], ◌∷◌, length,
  get_elem?, ltb, leb, ◌==◌, if◌then◌else◌,
}
use photonbar.Common.Int.{ℤ, pos, ◌+ℤ◌, ◌-ℤ◌, leb_ℤ}

pub record Rect : Type 0 where
  pub x : ℤ
  pub y : ℤ
  pub width : ℕ
  pub height : ℕ

-- Does `outer` contain `inner`?
unfoldable pub contains : Rect → Rect → Bool
contains outer inner =
    leb_ℤ outer.x inner.x
    && leb_ℤ (inner.x +ℤ pos inner.width) (outer.x +ℤ pos outer.width)
    && leb_ℤ outer.y inner.y
    && leb_ℤ (inner.y +ℤ pos inner.height) (outer.y +ℤ pos outer.height)

unfoldable pub is_clone : ℕ → Rect → ℕ → Rect → Bool
is_clone i ri j rj = not (i == j) && ltb 0 rj.width && contains ri rj

unfoldable pub shade_one : ℕ → Rect → ℕ → Rect → Rect
shade_one i ri j rj = if is_clone i ri j rj then record rj { width = 0 } else rj

-- The loop over `j`, from `j` on. It leaves `rects[i]` alone, which is `ri` all the while.
unfoldable pub shade : ℕ → Rect → ℕ → List Rect → ℤ → List Rect × ℤ
unfolding shade_one
shade i ri j [] valid = ([], valid)
shade i ri j (rj ∷ rs) valid =
    let left = if is_clone i ri j rj then valid -ℤ pos 1 else valid in
    let (rest, valid') = shade i ri (j + 1) rs left in (shade_one i ri j rj ∷ rest, valid')

-- One round of the loop over `i`.
unfoldable pub round : ℕ → List Rect → ℤ → List Rect × ℤ
round i rects valid = elim (get_elem? rects i) [
  | none ↦ (rects, valid)
  | some ri ↦ if ri.width == 0 then (rects, valid) else shade i ri 0 rects valid
]

unfoldable pub rounds : ℕ → ℕ → List Rect → ℤ → List Rect × ℤ
rounds zero i rects valid = (rects, valid)
rounds (suc n) i rects valid =
    let (rects', valid') = round i rects valid in rounds n (i + 1) rects' valid'

-- Clones and inactive outputs.
unfoldable pub drop_clones : List Rect → ℤ → List Rect × ℤ
drop_clones rects valid = rounds (length rects) 0 rects valid

-- The rectangles that go into `r`, at most `valid` of them.
unfoldable pub collect : ℕ → List Rect → List Rect
collect zero rects = []
collect (suc n) [] = []
collect (suc n) (r ∷ rs) = if r.width == 0 then collect (suc n) rs else r ∷ collect n rs
