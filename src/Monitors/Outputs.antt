-- ===== src/Monitors/Outputs.antt =====
-- bar.h, `getRandrMonitors` as a whole: what RandR answers for each output, and the array that goes
-- to `monitorCreateChain`. The two arrays stand on the stack: a rectangle of an unused output keeps
-- what was there but for its width, and so does all of a slot that is not written.
use photonbar.Common.{
  ℕ, zero, suc, ◌+◌, ◌-◌, Bool, true, not, ◌||◌, Option, none, some, List, [], ◌∷◌, ◌++◌, length,
  ◌==◌, if◌then◌else◌,
}
use photonbar.Common.Int.{ℤ, pos, ◌+ℤ◌, ltb_ℤ, pos_part}
use photonbar.Monitors.{Rect, drop_clones, collect}

-- A reply to `xcb_randr_get_output_info`; XCB_NONE is 0.
pub record OutputInfo : Type 0 where
  pub crtc : ℕ
  pub connected : Bool

-- The replies to the questions; `none` is a null pointer.
pub record Randr : Type 0 where
  pub outputs : Option (List ℕ)
  pub output_info : ℕ → Option OutputInfo
  pub crtc_info : ℕ → Option Rect

abbrev pub is_off : Option OutputInfo → Bool
is_off none = true
is_off (some o) = o.crtc == 0 || not o.connected

abbrev pub crtc_of : Option OutputInfo → ℕ
crtc_of none = 0
crtc_of (some o) = o.crtc

-- The loop over the outputs, from `i` on; `none` is the return where a crtc has no reply.
unfoldable pub read_outputs : Randr → (ℕ → Rect) → ℕ → List ℕ → ℤ → Option (List Rect × ℤ)
read_outputs x old i [] valid = some ([], valid)
read_outputs x old i (o ∷ os) valid =
    let info = x.output_info o in
    let rest : ℤ → Option (List Rect × ℤ) = read_outputs x old (i + 1) os in
    let keep : Rect → ℤ → Option (List Rect × ℤ) =
      λ r v. elim (rest v) [ none ↦ none | some (rs, w) ↦ some (r ∷ rs, w) ] in
    if is_off info
    then keep (record (old i) { width = 0 }) valid
    else elim (x.crtc_info (crtc_of info)) [ none ↦ none | some r ↦ keep r (valid +ℤ pos 1) ]

-- `n` slots that are not written, from `i` on.
abbrev pub unwritten : (ℕ → Rect) → ℕ → ℕ → List Rect
unwritten old i zero = []
unwritten old i (suc n) = old i ∷ unwritten old (i + 1) n

-- The array `r`, of `valid` rectangles.
unfoldable pub fill_array : (ℕ → Rect) → ℕ → List Rect → List Rect
fill_array old n rects =
    let used = collect n rects in used ++ unwritten old (length used) (n - length used)

-- What is behind the two loops; `none` where no output is usable.
unfoldable pub usable : (ℕ → Rect) → List Rect × ℤ → Option (List Rect)
usable old (rects, valid) =
    let (left, n) = drop_clones rects valid in
    if ltb_ℤ n (pos 1) then none else some (fill_array old (pos_part n) left)

unfoldable pub from_outputs : Randr → (ℕ → Rect) → (ℕ → Rect) → Option (List ℕ) → Option (List Rect)
from_outputs x old old' none = none
from_outputs x old old' (some []) = none
from_outputs x old old' (some (o ∷ os)) = elim (read_outputs x old 0 (o ∷ os) (pos 0)) [
  | none ↦ none
  | some found ↦ usable old' found
]

-- The rectangles for `monitorCreateChain`; `none` is a return without a call of it.
unfoldable pub randr_rects : Randr → (ℕ → Rect) → (ℕ → Rect) → Option (List Rect)
unfolding from_outputs
randr_rects x old old' = from_outputs x old old' x.outputs
