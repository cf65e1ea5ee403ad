-- ===== src/Startup.antt =====
-- main.cpp, the threads of the two bars: `main` starts the top bar's thread and waits for
-- `gTopReady`, which the top bar's `initialize` sets; then it starts the bottom bar's thread and
-- joins both. Each state is what the three threads have done, a step is one thread's next action.
pub mod Progress
use photonbar.Common.{Bool, true, false, ◌||◌, List, if◌then◌else◌}
use photonbar.Module.{Interface}
use photonbar.BarManager.{initialize_all_modules}

-- Where `main` is: before the first thread, waiting, joining the threads, or behind them.
pub data Place : Type 0 where
  starting waiting joining_top joining_bottom finished : Place

-- A bar's thread: not started, before the end of `initialize`, in `run`, or ended.
pub data Thread : Type 0 where
  idle initializing running ended : Thread

-- The last entry is `gTopReady`.
pub data State : Type 0 where
  state : Place → Thread → Thread → Bool → State

abbrev pub start_state : State
start_state = State.state Place.starting Thread.idle Thread.idle false

-- A thread whose `initialize` fails returns.
abbrev pub after_initialize : Bool → Thread
after_initialize ok = if ok then Thread.running else Thread.ended

-- `BarManager::initialize` but for the flag: whether the modules could be initialised.
abbrev pub initializes : {S : Type 0} → Interface S → List S → Bool
initializes i ms = (initialize_all_modules i ms).1

-- The two arguments say whether `initialize` succeeds for the top and for the bottom bar.
pub data Step (top_ok bottom_ok : Bool) : State → State → Type 0 where
  spawn_top :
      (b : Thread) (r : Bool)
      → Step top_ok bottom_ok
          (State.state Place.starting Thread.idle b r)
          (State.state Place.waiting Thread.initializing b r)
  initialize_top :
      (m : Place) (b : Thread) (r : Bool)
      → Step top_ok bottom_ok
          (State.state m Thread.initializing b r)
          (State.state m (after_initialize top_ok) b (top_ok || r))
  shut_top :
      (m : Place) (b : Thread) (r : Bool)
      → Step top_ok bottom_ok (State.state m Thread.running b r) (State.state m Thread.ended b r)
  wake :
      (t : Thread)
      → Step top_ok bottom_ok
          (State.state Place.waiting t Thread.idle true)
          (State.state Place.joining_top t Thread.initializing true)
  initialize_bottom :
      (m : Place) (t : Thread) (r : Bool)
      → Step top_ok bottom_ok
          (State.state m t Thread.initializing r)
          (State.state m t (after_initialize bottom_ok) r)
  shut_bottom :
      (m : Place) (t : Thread) (r : Bool)
      → Step top_ok bottom_ok (State.state m t Thread.running r) (State.state m t Thread.ended r)
  join_top :
      (b : Thread) (r : Bool)
      → Step top_ok bottom_ok
          (State.state Place.joining_top Thread.ended b r)
          (State.state Place.joining_bottom Thread.ended b r)
  join_bottom :
      (t : Thread) (r : Bool)
      → Step top_ok bottom_ok
          (State.state Place.joining_bottom t Thread.ended r)
          (State.state Place.finished t Thread.ended r)

-- Any number of steps.
pub data Steps (top_ok bottom_ok : Bool) : State → State → Type 0 where
  here : (s : State) → Steps top_ok bottom_ok s s
  then_step :
      {s t u : State}
      → Steps top_ok bottom_ok s t
      → Step top_ok bottom_ok t u
      → Steps top_ok bottom_ok s u
