-- ===== src/Tests/Rounds.antt =====
-- Rounds of the bar manager on small inputs.
use photonbar.Common.{ℕ, ◌≡◌, refl, Bool, true, false, some, List, [], ◌∷◌, arith, ascii}
use photonbar.Common.Int.{pos}
use photonbar.BarElement.{BarElement, new_element}
use photonbar.Module.{Module, Interface}
use photonbar.Layout.{Panel, Sides, render_all_elements}
use photonbar.Layout.Events.{XEvent}
use photonbar.BarManager.Picture.{Bar, Turn, rounds, on_events}
use photonbar.BarManager.Woken.{rounds_woken}

-- Modules that only remember when they were updated.
abbrev plain : Interface Module
plain = record {
  base = λ m. m;
  update = λ m. record m { last_update = pos 60 };
  initialize = λ m. (m, true);
}

abbrev workspace : Module
workspace = record {
  name = ascii "workspace";
  auto_update = true;
  seconds_per_update = pos 1;
  last_update = pos 0;
  render_set = true;
}

abbrev clock : Module
clock = record workspace { name = ascii "clock"; auto_update = false }

-- One element for each module, eight pixels wide, whose handler for the left button updates the first
-- module and draws.
abbrev element : BarElement ℕ
element = record new_element { width = 8; events = (1, 5) ∷ [] }

abbrev panels : List Module → List (Panel ℕ)
panels [] = []
panels (m ∷ ms) = record { window = 0; elements = element ∷ [] } ∷ panels ms

abbrev elements : List Module → Sides ℕ
elements ms = record { left = panels ms; right = [] }

abbrev lay : Sides ℕ → Sides ℕ
lay s = render_all_elements 9 100 0 (record { drawn = 2; counted = 2 }) s

abbrev act : ℕ → List Module → List Module × Bool
act h [] = ([], true)
act h (m ∷ ms) = (record m { last_update = pos 7 } ∷ ms, true)

abbrev bar : Bar Module ℕ
bar = record {
  modules = workspace ∷ clock ∷ [];
  xcb_fd = pos 3;
  picture = lay (elements (workspace ∷ clock ∷ []));
}

-- The clock has been due for a while.
abbrev woken : List XEvent → Turn
woken events = record {
  selected = pos 1;
  workspace_changed = false;
  x_ready = true;
  now = pos 60;
  events = events;
}

abbrev click : XEvent
click = XEvent.press 9 1 3

rounds_woken_example :
    rounds plain elements lay act (λ n b. b) (some 0) (woken (click ∷ []) ∷ woken [] ∷ []) bar
    ≡ on_events plain elements lay act (λ n b. b) (click ∷ []) bar
rounds_woken_example =
    rounds_woken plain elements lay act (λ n b. b) (some 0) (woken (click ∷ []) ∷ woken [] ∷ []) bar
      ((omega arith, refl), ((omega arith, refl), tt))
