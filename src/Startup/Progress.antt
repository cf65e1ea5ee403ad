-- ===== src/Startup/Progress.antt =====
-- What start-up (main.cpp) can and cannot do, for both outcomes of the top bar's `initialize`.
use photonbar.Common.{◌≡◌, refl, arith, Bool, true, false, List}
use photonbar.Module.{Interface}
use photonbar.Startup.{
  Place, Thread, State, start_state, initializes, after_initialize, Step, Steps,
}

abbrev pub IsIdle : Thread → Type 0
IsIdle Thread.idle = Unit
IsIdle Thread.initializing = ⊥
IsIdle Thread.running = ⊥
IsIdle Thread.ended = ⊥

idle_eq : (t : Thread) → IsIdle t → t ≡ Thread.idle
idle_eq Thread.idle h = refl
idle_eq Thread.initializing h = absurd h
idle_eq Thread.running h = absurd h
idle_eq Thread.ended h = absurd h

abbrev pub IsStarted : Thread → Type 0
IsStarted Thread.idle = ⊥
IsStarted Thread.initializing = Unit
IsStarted Thread.running = Unit
IsStarted Thread.ended = Unit

-- `main` has not gone past its wait.
abbrev pub IsEarly : Place → Type 0
IsEarly Place.starting = Unit
IsEarly Place.waiting = Unit
IsEarly Place.joining_top = ⊥
IsEarly Place.joining_bottom = ⊥
IsEarly Place.finished = ⊥

-- No bottom bar, and `main` before or in its wait for a flag that is not set.
abbrev pub Held : State → Type 0
Held (State.state m t b r) = IsEarly m × IsIdle b × (r ≡ false)

Step-Held : (bottom_ok : Bool) (s u : State) → Step false bottom_ok s u → Held s → Held u
Step-Held bottom_ok _ _ (Step.spawn_top b r) (early, none_yet, unset) = (tt, none_yet, unset)
Step-Held bottom_ok _ _ (Step.initialize_top m b r) h = h
Step-Held bottom_ok _ _ (Step.shut_top m b r) h = h
Step-Held bottom_ok _ _ (Step.wake t) (early, none_yet, unset) = absurd (ground (arith, unset))
Step-Held bottom_ok _ _ (Step.initialize_bottom m t r) (early, none_yet, unset) = absurd none_yet
Step-Held bottom_ok _ _ (Step.shut_bottom m t r) (early, none_yet, unset) = absurd none_yet
Step-Held bottom_ok _ _ (Step.join_top b r) (early, none_yet, unset) = absurd early
Step-Held bottom_ok _ _ (Step.join_bottom t r) (early, none_yet, unset) = absurd early

Steps-Held : (bottom_ok : Bool) (s u : State) → Steps false bottom_ok s u → Held s → Held u
Steps-Held bottom_ok s _ (Steps.here _) h = h
Steps-Held bottom_ok s u (Steps.then_step {t = t} before step) h =
    Step-Held bottom_ok t u step (Steps-Held bottom_ok s t before h)

-- What holds of the threads when the top bar's `initialize` succeeds.
abbrev Pending : Thread → Bool → Type 0
Pending Thread.idle r = ⊥
Pending Thread.initializing r = Unit
Pending Thread.running r = r ≡ true
Pending Thread.ended r = r ≡ true

abbrev Goes : State → Type 0
Goes (State.state Place.starting t b r) = IsIdle t × IsIdle b
Goes (State.state Place.waiting t b r) = Pending t r × IsIdle b
Goes (State.state Place.joining_top t b r) = IsStarted t × IsStarted b
Goes (State.state Place.joining_bottom t b r) = IsStarted t × IsStarted b
Goes (State.state Place.finished t b r) = IsStarted t × IsStarted b

after_initialize-IsStarted : (ok : Bool) → IsStarted (after_initialize ok)
after_initialize-IsStarted true = tt
after_initialize-IsStarted false = tt

initialize_top-Goes :
    (m : Place) (b : Thread) (r : Bool)
    → Goes (State.state m Thread.initializing b r)
    → Goes (State.state m Thread.running b true)
initialize_top-Goes Place.starting b r h = absurd h.0
initialize_top-Goes Place.waiting b r h = (refl, h.1)
initialize_top-Goes Place.joining_top b r h = h
initialize_top-Goes Place.joining_bottom b r h = h
initialize_top-Goes Place.finished b r h = h

shut_top-Goes :
    (m : Place) (b : Thread) (r : Bool)
    → Goes (State.state m Thread.running b r)
    → Goes (State.state m Thread.ended b r)
shut_top-Goes Place.starting b r h = absurd h.0
shut_top-Goes Place.waiting b r h = h
shut_top-Goes Place.joining_top b r h = h
shut_top-Goes Place.joining_bottom b r h = h
shut_top-Goes Place.finished b r h = h

-- A bottom thread that has started stays so.
bottom-Goes :
    (m : Place) (t b b' : Thread) (r : Bool)
    → IsStarted b
    → IsStarted b'
    → Goes (State.state m t b r)
    → Goes (State.state m t b' r)
bottom-Goes Place.starting t Thread.idle b' r s s' h = absurd s
bottom-Goes Place.starting t Thread.initializing b' r s s' h = absurd h.1
bottom-Goes Place.starting t Thread.running b' r s s' h = absurd h.1
bottom-Goes Place.starting t Thread.ended b' r s s' h = absurd h.1
bottom-Goes Place.waiting t Thread.idle b' r s s' h = absurd s
bottom-Goes Place.waiting t Thread.initializing b' r s s' h = absurd h.1
bottom-Goes Place.waiting t Thread.running b' r s s' h = absurd h.1
bottom-Goes Place.waiting t Thread.ended b' r s s' h = absurd h.1
bottom-Goes Place.joining_top t b b' r s s' h = (h.0, s')
bottom-Goes Place.joining_bottom t b b' r s s' h = (h.0, s')
bottom-Goes Place.finished t b b' r s s' h = (h.0, s')

Pending-IsStarted : (t : Thread) (r : Bool) → Pending t r → IsStarted t
Pending-IsStarted Thread.idle r h = h
Pending-IsStarted Thread.initializing r h = tt
Pending-IsStarted Thread.running r h = tt
Pending-IsStarted Thread.ended r h = tt

Step-Goes : (bottom_ok : Bool) (s u : State) → Step true bottom_ok s u → Goes s → Goes u
Step-Goes bottom_ok _ _ (Step.spawn_top b r) h = (tt, h.1)
Step-Goes bottom_ok _ _ (Step.initialize_top m b r) h = initialize_top-Goes m b r h
Step-Goes bottom_ok _ _ (Step.shut_top m b r) h = shut_top-Goes m b r h
Step-Goes bottom_ok _ _ (Step.wake t) h = (Pending-IsStarted t true h.0, tt)
Step-Goes bottom_ok _ _ (Step.initialize_bottom m t r) h =
    bottom-Goes m t Thread.initializing (after_initialize bottom_ok) r tt
      (after_initialize-IsStarted bottom_ok) h
Step-Goes bottom_ok _ _ (Step.shut_bottom m t r) h =
    bottom-Goes m t Thread.running Thread.ended r tt tt h
Step-Goes bottom_ok _ _ (Step.join_top b r) h = h
Step-Goes bottom_ok _ _ (Step.join_bottom t r) h = h

Steps-Goes : (bottom_ok : Bool) (s u : State) → Steps true bottom_ok s u → Goes s → Goes u
Steps-Goes bottom_ok s _ (Steps.here _) h = h
Steps-Goes bottom_ok s u (Steps.then_step {t = t} before step) h =
    Step-Goes bottom_ok t u step (Steps-Goes bottom_ok s t before h)

-- The bottom bar's thread has been started.
abbrev pub HasBottom : State → Type 0
HasBottom (State.state m t b r) = IsStarted b

wakes :
    (bottom_ok : Bool) (t : Thread) (s : State)
    → Steps true bottom_ok s (State.state Place.waiting t Thread.idle true)
    → (u : State) × Steps true bottom_ok s u × HasBottom u
wakes bottom_ok t s before = (
  State.state Place.joining_top t Thread.initializing true,
  Steps.then_step before (Step.wake t),
  tt,
)

Goes-HasBottom :
    (bottom_ok : Bool) (s : State) → Goes s → (u : State) × Steps true bottom_ok s u × HasBottom u
Goes-HasBottom ok (State.state Place.starting t b r) h =
    let spawned = Steps.then_step (Steps.here _) (Step.spawn_top Thread.idle r) in
    rw (idle_eq t h.0, idle_eq b h.1)
      (wakes ok Thread.running _
        (Steps.then_step spawned (Step.initialize_top Place.waiting Thread.idle r)))
Goes-HasBottom ok (State.state Place.waiting Thread.idle b r) h = absurd h.0
Goes-HasBottom ok (State.state Place.waiting Thread.initializing b r) h = rw (idle_eq b h.1) (
    wakes ok Thread.running _
      (Steps.then_step (Steps.here _) (Step.initialize_top Place.waiting Thread.idle r)))
Goes-HasBottom ok (State.state Place.waiting Thread.running b r) h =
    rw (idle_eq b h.1, h.0) (wakes ok Thread.running _ (Steps.here _))
Goes-HasBottom ok (State.state Place.waiting Thread.ended b r) h =
    rw (idle_eq b h.1, h.0) (wakes ok Thread.ended _ (Steps.here _))
Goes-HasBottom ok (State.state Place.joining_top t b r) h = (_, Steps.here _, h.1)
Goes-HasBottom ok (State.state Place.joining_bottom t b r) h = (_, Steps.here _, h.1)
Goes-HasBottom ok (State.state Place.finished t b r) h = (_, Steps.here _, h.1)

module _ {S : Type 0} (i : Interface S) (top bottom : List S) where
  -- When a module of the top bar cannot be initialised, then in every state that is reached `main`
  -- has not got past its wait and the bottom bar's thread does not exist.
  pub Steps-stuck :
      (s : State)
      → initializes i top ≡ false
      → Steps (initializes i top) (initializes i bottom) start_state s
      → Held s
  Steps-stuck s failed steps =
      Steps-Held (initializes i bottom) start_state s (rw failed at steps) (tt, tt, refl)

  -- When the modules of the top bar can be initialised, then from every state that is reached, one
  -- in which the bottom bar's thread has been started can be reached.
  Steps-HasBottom :
      (s : State)
      → initializes i top ≡ true
      → Steps (initializes i top) (initializes i bottom) start_state s
      → (u : State) × Steps (initializes i top) (initializes i bottom) s u × HasBottom u
  Steps-HasBottom s ready steps = rw ready (
      Goes-HasBottom (initializes i bottom) s
        (Steps-Goes (initializes i bottom) start_state s (rw ready at steps) (tt, tt)))
