-- ===== src/Layout.antt =====
-- bar.h: where the elements of a bar stand and which of them a button press reaches, from
-- `parseLeftModules`, `parseRightModules`, `renderAllElements`, `renderSeparatorAt` and
-- `processXEvents`. The widths of the elements are those that `parseElementContent` stored.
-- Positions are ints; `beginX` is a uint16_t, into which they wrap.
pub mod Order
pub mod Tiles
pub mod Press
pub mod Events
use photonbar.Common.{
  ℕ, suc, ◌+◌, ◌-◌, ◌*◌, ◌%◌, Bool, true, false, ◌&&◌, ◌||◌, Option, none, some, List, [], ◌∷◌,
  ◌++◌, ◌==◌, leb, ltb, if◌then◌else◌, length,
}
use photonbar.Common.Int.{ℤ, pos, negsuc, ◌+ℤ◌, ◌-ℤ◌}
use photonbar.BarElement.{BarElement}

-- A module as the bar sees it: its window and its elements.
pub record Panel (A : Type 0) : Type 0 where
  pub window : ℕ
  pub elements : List (BarElement A)

-- The separator: the width it takes when it is drawn, and the width counted for it before.
pub record Separator : Type 0 where
  pub drawn : ℕ
  pub counted : ℕ

pub record Sides (A : Type 0) : Type 0 where
  pub left : List (Panel A)
  pub right : List (Panel A)

-- The int to uint16_t conversion.
abbrev pub to_uint16 : ℤ → ℕ
to_uint16 (pos n) = n % 65536
to_uint16 (negsuc n) = (65536 - suc n % 65536) % 65536

module _ {A : Type 0} where
  -- `element->beginX = current_x; current_x += element->width;` over the elements of a module.
  unfoldable pub place_elements : ℤ → List (BarElement A) → List (BarElement A) × ℤ
  place_elements x [] = ([], x)
  place_elements x (e ∷ es) =
      let (rest, end) = place_elements (x +ℤ pos e.width) es in
      (record e { begin_x = to_uint16 x } ∷ rest, end)

  -- A separator follows every module but the last.
  unfoldable pub place_panels : ℕ → ℤ → List (Panel A) → List (Panel A) × ℤ
  place_panels sep x [] = ([], x)
  place_panels sep x (p ∷ []) =
      let (es, end) = place_elements x p.elements in (record p { elements = es } ∷ [], end)
  place_panels sep x (p ∷ q ∷ ps) =
      let (es, end) = place_elements x p.elements in
      let (rest, last) = place_panels sep (end +ℤ pos sep) (q ∷ ps) in
      (record p { elements = es } ∷ rest, last)

  abbrev pub total_width : List (BarElement A) → ℕ
  total_width [] = 0
  total_width (e ∷ es) = e.width + total_width es

  abbrev pub panels_width : List (Panel A) → ℕ
  panels_width [] = 0
  panels_width (p ∷ ps) = total_width p.elements + panels_width ps

  -- `module->window = cur_mon->window`.
  abbrev pub set_windows : ℕ → List (Panel A) → List (Panel A)
  set_windows w [] = []
  set_windows w (p ∷ ps) = record p { window = w } ∷ set_windows w ps

  -- `parseModules` as far as positions go: the windows, then `renderAllElements`, whose
  -- positions replace those of the two parse functions.
  unfoldable pub render_all_elements : ℕ → ℕ → ℕ → Separator → Sides A → Sides A
  render_all_elements window mon_width margin sep s =
      let available = pos mon_width -ℤ pos margin in
      let counted = (length s.right - 1) * sep.counted in
      let start = available -ℤ pos (panels_width s.right + counted) in
      record {
        left = (place_panels sep.drawn (pos 0) (set_windows window s.left)).0;
        right = (place_panels sep.drawn start (set_windows window s.right)).0;
      }

  abbrev pub lookup_event : ℕ → List (ℕ × A) → Option A
  lookup_event detail [] = none
  lookup_event detail ((k, h) ∷ rest) = if k == detail then some h else lookup_event detail rest

  -- The test inside the three loops of XCB_BUTTON_PRESS, but for the event type.
  abbrev pub is_under : ℕ → ℕ → ℕ → BarElement A → Bool
  is_under window at x e = (window == at) && (leb e.begin_x x && ltb x (e.begin_x + e.width))

  unfoldable pub press_elements : ℕ → ℕ → ℕ → ℕ → List (BarElement A) → Option A
  press_elements window at detail x [] = none
  press_elements window at detail x (e ∷ es) =
      let rest = press_elements window at detail x es in
      elim (lookup_event detail e.events) [
        | none ↦ rest
        | some h ↦ if is_under window at x e then some h else rest
      ]

  -- The handler that a press runs: of the first module, element and event that fit.
  unfoldable pub press : ℕ → ℕ → ℕ → List (Panel A) → Option A
  press at detail x [] = none
  press at detail x (p ∷ ps) =
      let rest = press at detail x ps in
      elim (press_elements p.window at detail x p.elements) [ none ↦ rest | some h ↦ some h ]

  -- What `processXEvents` is told by one press, on both sides of the bar.
  unfoldable pub button_press : ℕ → ℕ → ℕ → Sides A → Option A
  unfolding press press_elements
  button_press at detail x s = press at detail x (s.left ++ s.right)
