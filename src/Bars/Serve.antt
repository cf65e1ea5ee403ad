-- ===== src/Bars/Serve.antt =====
-- main.cpp, the bars that `main` runs: the modules of Bars with their handlers under BarManager's
-- rounds. Each module carries what its operations will be told, one after the other.
use photonbar.Common.{
  ℕ, zero, suc, Bool, true, false, Option, List, [], ◌∷◌, map, take, drop, get_elem?, none, some,
  ltb, ◌-◌, bytes_eq, if◌then◌else◌,
}
use photonbar.Common.Int.{ℤ}
use photonbar.BarElement.{BarElement}
use photonbar.Layout.{Panel, Sides}
use photonbar.Module.{Interface, set_render_function}
use photonbar.BarManager.{update_workspace}
use photonbar.BarManager.Picture.{Turn, Bar}
use photonbar.BarManager.Run.{construct, start}
use photonbar.Bars.{
  BarModule, Answers, Libraries, base, update, initialize, top_left, top_right, bottom_left,
  bottom_right,
}
use photonbar.Bars.Press.{Action, press}
use photonbar.Bars.Elements.{with_action, get_elements}
use photonbar.Audio.{SinkInfo}
use photonbar.Ping.{Traffic}
use photonbar.Workspace.{Reply}

pub record Seat (W : Type 0) : Type 0 where
  pub unit : BarModule W
  pub future : ℕ → Answers W

-- The seat behind an operation that was told the first answers.
abbrev pub moved : {W : Type 0} → Seat W → BarModule W → Seat W
moved s m = record { unit = m; future = λ n. s.future (suc n) }

abbrev pub seats : {W : Type 0} → (ℕ → ℕ → Answers W) → ℕ → List (BarModule W) → List (Seat W)
seats told n [] = []
seats told n (m ∷ ms) = record { unit = m; future = told n } ∷ seats told (suc n) ms

-- `setRenderFunction`.
unfoldable pub with_render : {W : Type 0} → BarModule W → BarModule W
with_render (BarModule.workspace q) =
    BarModule.workspace (record q { base = set_render_function q.base })
with_render (BarModule.audio q) = BarModule.audio (record q { base = set_render_function q.base })
with_render (BarModule.battery q r) = BarModule.battery q true
with_render (BarModule.notifications q) =
    BarModule.notifications (record q { base = set_render_function q.base })
with_render (BarModule.weather q r) = BarModule.weather q true
with_render (BarModule.datetime q) =
    BarModule.datetime (record q { base = set_render_function q.base })
with_render (BarModule.network q r) = BarModule.network q true
with_render (BarModule.timer q) = BarModule.timer (record q { render_set = true })
with_render (BarModule.stopwatch q) = BarModule.stopwatch (record q { render_set = true })
with_render (BarModule.space q r) = BarModule.space q true
with_render (BarModule.resources q r) = BarModule.resources q true

abbrev pub set_render : {W : Type 0} → Seat W → Seat W
set_render s = record s { unit = with_render s.unit }

module _ {W : Type 0} (l : Libraries W) where
  abbrev pub seated : Interface (Seat W)
  seated = record {
    base = λ s. base s.unit;
    update = λ s. moved s (update l (s.future 0) s.unit);
    initialize = λ s. let (m, ready) = initialize l (s.future 0) s.unit in (moved s m, ready);
  }

  -- The handler of the `n`-th module.
  unfoldable pub act : ℕ × Action → List (Seat W) → List (Seat W) × Bool
  act (n, h) [] = ([], false)
  act (zero, h) (s ∷ ss) = let (m, drawn) = press l (s.future 0) h s.unit in (moved s m ∷ ss, drawn)
  act (suc n, h) (s ∷ ss) = let (rest, drawn) = act (n, h) ss in (s ∷ rest, drawn)

-- The elements of the modules from the `n`-th on; the window is set when they are laid out.
abbrev pub panels : {W : Type 0} → ℕ → List (Seat W) → List (Panel (ℕ × Action))
panels n [] = []
panels n (s ∷ ss) =
    record { window = 0; elements = map (with_action (λ h. (n, h))) (get_elements s.unit) }
    ∷ panels (suc n) ss

-- The first `left` modules stand on the left.
unfoldable pub sides : {W : Type 0} → ℕ → List (Seat W) → Sides (ℕ × Action)
sides left ss = record { left = take left (panels 0 ss); right = drop left (panels 0 ss) }

-- Whether the elements are the same objects before and after an update.
unfoldable pub same_objects : {W : Type 0} → BarModule W → BarModule W → Bool
same_objects (BarModule.workspace q) (BarModule.workspace r) = bytes_eq q.elements r.elements
same_objects old new = true

-- Elements that are written in place stay where they were laid out.
abbrev pub in_place : {A : Type 0} → List (BarElement A) → List (BarElement A) → List (BarElement A)
in_place [] new = new
in_place (e ∷ es) [] = []
in_place (e ∷ es) (q ∷ qs) = record q { begin_x = e.begin_x; width = e.width } ∷ in_place es qs

-- Elements that are not the same objects as before have not been laid out yet.
unfoldable pub renewed :
    {W : Type 0} → BarModule W → BarModule W → ℕ → Panel (ℕ × Action) → Panel (ℕ × Action)
renewed old new n p =
    let elements = map (with_action (λ h. (n, h))) (get_elements new) in
    record p { elements = if same_objects old new then in_place p.elements elements else elements }

abbrev pub at_panel : {A : Type 0} → ℕ → (Panel A → Panel A) → List (Panel A) → List (Panel A)
at_panel n f [] = []
at_panel zero f (p ∷ ps) = f p ∷ ps
at_panel (suc n) f (p ∷ ps) = p ∷ at_panel n f ps

-- `handleI3Events` of the `n`-th module, where it reports a change: the elements that a press is
-- looked for in are already the new ones. Without one it may replace the descriptor, which these
-- rounds do not read.
unfoldable pub handle_i3 :
    {W : Type 0} → Libraries W → ℕ → ℕ → Bar (Seat W) (ℕ × Action) → Bar (Seat W) (ℕ × Action)
handle_i3 l left n b = elim (get_elem? b.modules n) [
  | none ↦ b
  | some s ↦
      let change = renewed s.unit (update l (s.future 0) s.unit) n in
      record b {
        modules = update_workspace (seated l) n b.modules;
        picture = record {
          left = at_panel n change b.picture.left;
          right =
              if ltb n left then b.picture.right else at_panel (n - left) change b.picture.right;
        };
      }
]

module _ {W : Type 0} (l : Libraries W) (told : ℕ → ℕ → Answers W) where
  -- The modules of the top bar, and of the bottom bar, behind the constructor of BarManager.
  unfoldable pub top_modules : ℤ → Option (List Reply) → SinkInfo → Bool → List (Seat W)
  top_modules i3_fd workspaces sink curl_handle =
      construct set_render (seats told 0 (top_left l i3_fd workspaces))
        (seats told 1 (top_right l sink curl_handle))

  unfoldable pub bottom_modules : Traffic → List (Seat W)
  bottom_modules traffic =
      construct set_render (seats told 0 (bottom_left l)) (seats told 2 (bottom_right l traffic))

module _ {W : Type 0} (l : Libraries W) where
  -- The two threads, with the clock and the events of each round and what `feed` makes of the
  -- elements.
  unfoldable pub serve_top :
      (Sides (ℕ × Action) → Sides (ℕ × Action))
      → List Turn
      → ℤ
      → List (Seat W)
      → Option (Bar (Seat W) (ℕ × Action))
  serve_top lay ts xcb_fd ms = start (seated l) (sides 1) lay (act l) (handle_i3 l 1) ts xcb_fd ms

  unfoldable pub serve_bottom :
      (Sides (ℕ × Action) → Sides (ℕ × Action))
      → List Turn
      → ℤ
      → List (Seat W)
      → Option (Bar (Seat W) (ℕ × Action))
  serve_bottom lay ts xcb_fd ms =
      start (seated l) (sides 2) lay (act l) (handle_i3 l 2) ts xcb_fd ms
