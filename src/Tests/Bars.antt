-- ===== src/Tests/Bars.antt =====
-- The outputs, the monitors, the layout of a bar and its rounds on small inputs.
use photonbar.Common.{
  ℕ, ◌+◌, ◌<◌, ◌≤◌, ◌≡◌, ◌≢◌, refl, Bool, true, false, Option, none, some, List, [], ◌∷◌, ◌++◌,
  arith, map, All, length, ◌==◌, if◌then◌else◌, get_elem?, ascii, ◌-◌,
}
use photonbar.Common.Int.{ℤ, pos, negsuc}
use photonbar.BarElement.{BarElement, new_element}
use photonbar.Monitors.{Rect, drop_clones, contains, collect}
use photonbar.Monitors.Clones.{drop_clones-NoClones}
use photonbar.Monitors.Cover.{Covered, drop_clones-Covered}
use photonbar.Monitors.Chain.{Geometry, place}
use photonbar.Monitors.Chain.Place.{Fits, place-Fits}
use photonbar.Monitors.Chain.Links.{Links, Holds, monitor_add, monitor_add-Holds}
use photonbar.Layout.{Sides, Panel, render_all_elements, button_press, lookup_event}
use photonbar.Layout.Tiles.{Tiles, bare, render-Tiles}
use photonbar.Layout.Press.{button_press-hit}
use photonbar.Module.{Interface, Module, new_module, should_update}
use photonbar.BarManager.{Manager, Inputs, round, handle_x_events, initialize_all_modules, Call}
use photonbar.BarManager.Rounds.{feeds, updated_if_due, round_timeout}

-- A screen, the same screen again as a clone, and a second one beside it.
abbrev outputs : List Rect
outputs =
    record { x = pos 0; y = pos 0; width = 1920; height = 1080 }
    ∷ record { x = pos 0; y = pos 0; width = 1920; height = 1080 }
    ∷ record { x = pos 1920; y = pos 0; width = 1280; height = 1024 }
    ∷ []

abbrev first : Rect
first = record { x = pos 0; y = pos 0; width = 1920; height = 1080 }

abbrev second : Rect
second = record { x = pos 1920; y = pos 0; width = 1280; height = 1024 }

drop_clones-NoClones_example : contains first second ≡ false
unfolding drop_clones contains photonbar.Monitors.rounds photonbar.Monitors.round
    photonbar.Monitors.shade photonbar.Monitors.is_clone photonbar.Common.Int.◌+ℤ◌
drop_clones-NoClones_example =
    drop_clones-NoClones outputs (pos 3) 0 2 first second (omega arith) refl refl (omega arith)
      (omega arith)

drop_clones-Covered_example : Covered (drop_clones outputs (pos 3)).0 first
drop_clones-Covered_example = drop_clones-Covered outputs (pos 3) 1 first refl (omega arith)

abbrev geometry : Geometry
geometry = record {
  bw = pos 2000;
  bh = pos 24;
  bx = pos 100;
  by = pos 0;
  bu = pos 1;
  topbar = true;
}

place-Fits_example : Fits (pos 2000) (place geometry (pos 2000) (pos 100) (first ∷ second ∷ []))
place-Fits_example = place-Fits geometry (pos 2000) (pos 100) (first ∷ second ∷ []) (omega arith)

-- Two monitors, at the addresses 1 and 2.
abbrev two : Links
two = record {
  monhead = some 1;
  montail = some 2;
  next = λ a. if a == 1 then some 2 else none;
  prev = λ a. if a == 2 then some 1 else none;
}

monitor_add-Holds_example : Holds (monitor_add 3 two) (1 ∷ 2 ∷ 3 ∷ [])
monitor_add-Holds_example =
    monitor_add-Holds {c = two} {ids = 1 ∷ 2 ∷ []} 3 (Holds.more refl refl (refl, (refl, refl)))
      (record { unlinked = refl; apart = ((λ e. omega (arith, e)), ((λ e. omega (arith, e)), tt)) })

abbrev tile : ℕ → BarElement ℕ
tile w = record new_element { width = w; events = (1, w) ∷ [] }

abbrev sides : Sides ℕ
sides = record {
  left = record { window = 0; elements = tile 10 ∷ tile 20 ∷ [] } ∷ [];
  right =
      record { window = 0; elements = tile 30 ∷ [] }
      ∷ record { window = 0; elements = tile 40 ∷ [] }
      ∷ [];
}

render-Tiles_example :
    let out = render_all_elements 9 200 4 (record { drawn = 5; counted = 5 }) sides in
    (map bare out.left ≡ map bare sides.left)
    × (map bare out.right ≡ map bare sides.right)
    × Tiles 5 0 out.left
    × Tiles 5 121 out.right
    × (121 + 75 ≡ 200 - 4)
    × (30 ≤ 121)
render-Tiles_example = render-Tiles 9 200 4 5 sides (omega arith) (omega arith)

-- A click at 130 is on the first element of the right side.
button_press-hit_example :
    button_press 9 1 130 (render_all_elements 9 200 4 (record { drawn = 5; counted = 5 }) sides)
    ≡ some 30
unfolding render_all_elements photonbar.Layout.place_panels photonbar.Layout.place_elements
    photonbar.Common.Int.◌+ℤ◌ photonbar.Common.Int.◌-ℤ◌
button_press-hit_example =
    button_press-hit 9 200 4 5 1 130 sides
      (record (tile 10) { begin_x = 0 } ∷ record (tile 20) { begin_x = 10 } ∷ [])
      (record (tile 30) { begin_x = 121 }) (record (tile 40) { begin_x = 156 } ∷ []) (omega arith)
      (omega arith) refl (omega arith) (omega arith)

-- Modules whose update sets the time to 60.
abbrev plain : Interface Module
plain = record {
  base = λ m. m;
  update = λ m. record m { last_update = pos 60 };
  initialize = λ m. (m, true);
}

abbrev clock : Module
clock = new_module (ascii "clock") false (pos 1)

abbrev daily : Module
daily = record (new_module (ascii "daily") false (pos 86400)) { last_update = pos 50 }

abbrev manager : Manager plain
manager = record { modules = clock ∷ daily ∷ []; any_updated = false; xcb_fd = pos 3; calls = [] }

abbrev timeout : Inputs
timeout = record { selected = pos 0; workspace_changed = false; x_ready = false; now = pos 60 }

abbrev redrawn : Manager plain
redrawn = record {
  modules = record clock { last_update = pos 60 } ∷ daily ∷ [];
  any_updated = true;
  xcb_fd = pos 3;
  calls = Call.feed ∷ [];
}

-- There are no events, so what their handlers would do does not count.
abbrev unheard : Inputs → Manager plain → Manager plain
unheard t b = record b { modules = [] }

round_timeout_example :
    (redrawn.modules ≡ map (updated_if_due plain (pos 60)) manager.modules)
    × (feeds redrawn.calls ≡ 1)
unfolding round handle_x_events should_update new_module photonbar.BarManager.update_each
    photonbar.Common.Int.◌-ℤ◌ photonbar.Module.check_and_update
round_timeout_example = round_timeout plain unheard none timeout manager refl refl refl
