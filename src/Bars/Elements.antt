-- ===== src/Bars/Elements.antt =====
-- `getElements` of the modules: their elements with their handlers, in the order of `elements`.
use photonbar.Common.{ℕ, Option, none, some, List, [], ◌∷◌, ◌==◌, if◌then◌else◌}
use photonbar.BarElement.{BarElement}
use photonbar.Bars.{BarModule}
use photonbar.Bars.Press.{Action}
use photonbar.Workspace

abbrev pub as_actions : {A B : Type 0} → (A → B) → List (ℕ × A) → List (ℕ × B)
as_actions f [] = []
as_actions f ((k, h) ∷ rest) = (k, f h) ∷ as_actions f rest

-- The same element with these handlers.
unfoldable pub with_events : {A B : Type 0} → List (ℕ × B) → BarElement A → BarElement B
with_events events e = record {
  content = e.content;
  ucs_content = e.ucs_content;
  ucs_content_char_widths = e.ucs_content_char_widths;
  dirty_content = e.dirty_content;
  content_len = e.content_len;
  ucs_content_len = e.ucs_content_len;
  begin_x = e.begin_x;
  width = e.width;
  foreground_color = e.foreground_color;
  background_color = e.background_color;
  underline_color = e.underline_color;
  events = events;
  offset_pixels = e.offset_pixels;
  underline = e.underline;
}

abbrev pub with_action : {A B : Type 0} → (A → B) → BarElement A → BarElement B
with_action f e = with_events (as_actions f e.events) e

-- The classes without handlers.
abbrev pub quiet : BarElement Unit → BarElement Action
quiet e = with_events [] e

-- The element behind a pointer.
abbrev pub at_pointer :
    ℕ → List (ℕ × BarElement Workspace.Action) → Option (BarElement Workspace.Action)
at_pointer k [] = none
at_pointer k ((p, e) ∷ heap) = if p == k then some e else at_pointer k heap

abbrev pub behind : List ℕ → List (ℕ × BarElement Workspace.Action) → List (BarElement Action)
behind [] heap = []
behind (k ∷ ks) heap = elim (at_pointer k heap) [
  | none ↦ behind ks heap
  | some e ↦ with_action Action.workspace e ∷ behind ks heap
]

unfoldable pub get_elements : {W : Type 0} → BarModule W → List (BarElement Action)
get_elements (BarModule.workspace s) = behind s.elements s.heap
get_elements (BarModule.audio s) = with_action Action.audio s.element ∷ []
get_elements (BarModule.battery s r) = quiet s.icon ∷ quiet s.text ∷ []
get_elements (BarModule.notifications s) = with_action Action.notifications s.element ∷ []
get_elements (BarModule.weather s r) = with_action Action.weather s.element ∷ []
get_elements (BarModule.datetime s) = with_action Action.datetime s.element ∷ []
get_elements (BarModule.network s r) = with_action Action.network s.element ∷ []
get_elements (BarModule.timer s) =
    with_action Action.timer s.base
    ∷ with_action Action.timer s.play_icon
    ∷ with_action Action.timer s.hour
    ∷ with_action Action.timer s.minute
    ∷ with_action Action.timer s.second
    ∷ []
get_elements (BarModule.stopwatch s) =
    with_action Action.stopwatch s.base ∷ with_action Action.stopwatch s.time ∷ []
get_elements (BarModule.space s r) = with_action Action.space s.element ∷ []
get_elements (BarModule.resources s r) = quiet s.ram ∷ quiet s.cpu ∷ quiet s.temp ∷ []
