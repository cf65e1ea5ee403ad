-- ===== src/BarManager/Picture.antt =====
-- main.cpp, `BarManager::run` together with bar.h: rounds in which the handlers of presses run,
-- change the modules and may draw through `renderFunction`. What a handler does is the parameter
-- `act`: the modules behind it, and whether it called `renderFunction`. `elements` gives the
-- elements of the modules, and `lay` is what `feed` makes of them: the picture, in which the next
-- press is looked for. `i3` is what `handleI3Events` does to the module of the workspaces, and so to
-- the picture, where it reports a change.
use photonbar.Common.{ℕ, Bool, not, ◌&&◌, Option, none, some, List, [], ◌∷◌, if◌then◌else◌}
use photonbar.Common.Int.{ℤ, pos, negsuc, ltb_ℤ, eqb_ℤ}
use photonbar.Layout.{Sides, button_press}
use photonbar.Layout.Events.{XEvent}
use photonbar.Module.{Interface}
use photonbar.BarManager.{update_each, update_workspace}

-- What one round is told, with the queue of the X connection.
pub record Turn : Type 0 where
  pub selected : ℤ
  pub workspace_changed : Bool
  pub x_ready : Bool
  pub now : ℤ
  pub events : List XEvent

pub record Bar (S A : Type 0) : Type 0 where
  pub modules : List S
  pub xcb_fd : ℤ
  pub picture : Sides A

module _ {S A : Type 0} (i : Interface S) (elements : List S → Sides A) (lay : Sides A → Sides A)
    (act : A → List S → List S × Bool) (i3 : ℕ → Bar S A → Bar S A) where
  unfoldable pub feed : Bar S A → Bar S A
  feed b = record b { picture = lay (elements b.modules) }

  abbrev pub drawn_if : Bool → Bar S A → Bar S A
  drawn_if drawn b = if drawn then feed b else b

  -- A press runs the handler that is found in the picture.
  unfoldable pub on_event : XEvent → Bar S A → Bar S A
  on_event (XEvent.expose count) b = b
  on_event (XEvent.press window detail x) b = elim (button_press window detail x b.picture) [
    | none ↦ b
    | some h ↦ let (ms, drawn) = act h b.modules in drawn_if drawn (record b { modules = ms })
  ]
  on_event XEvent.other b = b

  unfoldable pub on_events : List XEvent → Bar S A → Bar S A
  on_events [] b = b
  on_events (e ∷ es) b = on_events es (on_event e b)

  -- `updateModules(); if (hasUpdates()) renderBar();`
  unfoldable pub refresh : ℤ → Bar S A → Bar S A
  refresh now b =
      let (ms, any) = update_each i now b.modules in drawn_if any (record b { modules = ms })

  -- What a timeout does.
  abbrev pub idle : Turn → Bar S A → Bar S A
  idle t b = if eqb_ℤ t.selected (pos 0) then refresh t.now b else b

  -- The rest of a round behind the events.
  unfoldable pub settle : Option ℕ → Turn → Bar S A → Bar S A
  settle none t b = idle t b
  settle (some n) t b =
      if t.workspace_changed
      then refresh t.now (record b { modules = update_workspace i n b.modules })
      else idle t b

  -- What `handleI3Events` leaves before the events are read.
  unfoldable pub noticed : Option ℕ → Turn → Bar S A → Bar S A
  noticed none t b = b
  noticed (some n) t b = if t.workspace_changed then i3 n b else b

  -- One round; `none` is the break behind a failed `select`.
  unfoldable pub round : Option ℕ → Turn → Bar S A → Option (Bar S A)
  round workspace t b =
      let ready = not (eqb_ℤ b.xcb_fd (negsuc 0)) && t.x_ready in
      let seen = noticed workspace t b in
      if ltb_ℤ t.selected (pos 0)
      then none
      else some (settle workspace t (if ready then on_events t.events seen else seen))

  unfoldable pub rounds : Option ℕ → List Turn → Bar S A → Bar S A
  rounds workspace [] b = b
  rounds workspace (t ∷ ts) b = elim (round workspace t b) [
    | none ↦ b
    | some b' ↦ rounds workspace ts b'
  ]
