-- ===== src/BarManager/Woken.antt =====
-- main.cpp, `BarManager::run` while `select` is woken before its timeout, over the rounds of Picture.
use photonbar.Common.{
  ℕ, ◌≡◌, refl, ◌∙◌, Bool, false, not, ◌&&◌, Option, none, some, List, [], ◌∷◌, ◌++◌, arith,
  if◌then◌else◌, All, inl, inr, Bool-cases, ap,
}
use photonbar.Common.Int.{pos, negsuc, eqb_ℤ, ltb_ℤ, eqb_ℤ_iff, ◌<ℤ◌}
use photonbar.Layout.{Sides}
use photonbar.Layout.Events.{XEvent}
use photonbar.Module.{Interface}
use photonbar.BarManager.Picture.{
  Turn, Bar, feed, noticed, on_event, on_events, settle, round, rounds,
}

-- `select` reports a descriptor, and i3 no change.
abbrev pub IsWoken : Turn → Type 0
IsWoken t = (pos 0 <ℤ t.selected) × (t.workspace_changed ≡ false)

-- The events that are read, where there is a connection to read them from.
abbrev pub events_of : Bool → List Turn → List XEvent
events_of connected [] = []
events_of connected (t ∷ ts) =
    (if connected && t.x_ready then t.events else []) ++ events_of connected ts

module _ {S A : Type 0} (i : Interface S) (elements : List S → Sides A) (lay : Sides A → Sides A)
    (act : A → List S → List S × Bool) (i3 : ℕ → Bar S A → Bar S A) where
  on_event-xcb_fd :
      (e : XEvent) (b : Bar S A) → (on_event i elements lay act i3 e b).xcb_fd ≡ b.xcb_fd
  unfolding on_event feed
  on_event-xcb_fd (XEvent.expose count) b = refl
  on_event-xcb_fd XEvent.other b = refl
  on_event-xcb_fd (XEvent.press window detail x) b = ground arith

  on_events-xcb_fd :
      (es : List XEvent) (b : Bar S A) → (on_events i elements lay act i3 es b).xcb_fd ≡ b.xcb_fd
  unfolding on_events
  on_events-xcb_fd [] b = refl
  on_events-xcb_fd (e ∷ es) b =
      on_events-xcb_fd es (on_event i elements lay act i3 e b) ∙ on_event-xcb_fd e b

  on_events-append :
      (es fs : List XEvent) (b : Bar S A)
      → on_events i elements lay act i3 (es ++ fs) b
        ≡ on_events i elements lay act i3 fs (on_events i elements lay act i3 es b)
  unfolding on_events
  on_events-append [] fs b = refl
  on_events-append (e ∷ es) fs b = on_events-append es fs (on_event i elements lay act i3 e b)

  settle_woken :
      (workspace : Option ℕ) (t : Turn) (b : Bar S A)
      → IsWoken t
      → settle i elements lay act i3 workspace t b ≡ b
  unfolding settle
  settle_woken none t b woken = ground (arith, eqb_ℤ_iff t.selected (pos 0))
  settle_woken (some n) t b woken = ground (arith, eqb_ℤ_iff t.selected (pos 0))

  noticed_woken :
      (workspace : Option ℕ) (t : Turn) (b : Bar S A)
      → IsWoken t
      → noticed i elements lay act i3 workspace t b ≡ b
  unfolding noticed
  noticed_woken none t b woken = refl
  noticed_woken (some n) t b woken = rw woken.1 refl

  round_woken :
      (workspace : Option ℕ) (t : Turn) (b : Bar S A)
      → IsWoken t
      → round i elements lay act i3 workspace t b
        ≡ some (
            on_events i elements lay act i3
              (if not (eqb_ℤ b.xcb_fd (negsuc 0)) && t.x_ready then t.events else [])
              b)
  unfolding round on_events
  round_woken workspace t b woken =
      let going : ltb_ℤ t.selected (pos 0) ≡ false = ground (arith, woken) in
      elim (Bool-cases (not (eqb_ℤ b.xcb_fd (negsuc 0)) && t.x_ready)) [
        | inl ready ↦
            rw (going, noticed_woken workspace t b woken, ready)
              (ap some
                (settle_woken workspace t (on_events i elements lay act i3 t.events b) woken))
        | inr silent ↦
            rw (going, noticed_woken workspace t b woken, silent)
              (ap some (settle_woken workspace t b woken))
      ]

  -- While `select` returns for events before its timeout each time, and i3 reports no change, the
  -- bar is what the handlers of the presses alone make of it, and no update that is due takes place,
  -- however long that goes on and whatever the clock says.
  pub rounds_woken :
      (workspace : Option ℕ) (ts : List Turn) (b : Bar S A)
      → All IsWoken ts
      → rounds i elements lay act i3 workspace ts b
        ≡ on_events i elements lay act i3 (events_of (not (eqb_ℤ b.xcb_fd (negsuc 0))) ts) b
  unfolding rounds on_events
  rounds_woken workspace [] b woken = refl
  rounds_woken workspace (t ∷ ts) b woken =
      let read = if not (eqb_ℤ b.xcb_fd (negsuc 0)) && t.x_ready then t.events else [] in
      let next = on_events i elements lay act i3 read b in
      let rest = rounds_woken workspace ts next woken.1 in
      rw (round_woken workspace t b woken.0, rounds)
        (rest ∙ rw (on_events-xcb_fd read b, on_events-append read _ b) refl)
