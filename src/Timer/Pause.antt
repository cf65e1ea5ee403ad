-- ===== src/Timer/Pause.antt =====
-- The state of the countdown in modules/timer.h: what every handler keeps, and what a pause does
-- to the time that is left.
use photonbar.Common.{ℕ, ◌≤◌, true, false, ◌≡◌, refl, arith, if◌then◌else◌}
use photonbar.Common.Int.{ℤ, pos, ◌+ℤ◌, ◌-ℤ◌, ◌≤ℤ◌, int_laws}
use photonbar.Common.Steady.{ms_between, ms_between_split}
use photonbar.Timer.Clock.{Timer, Action, Place, remaining_ms, is_positive}
use photonbar.Timer.{
  refresh, update, apply_colors, check_timer_alert, send_alert, rearm_alert, show,
}
use photonbar.Timer.Handlers.{adjusted, toggled, cleared, play_pause, perform, new_timer}

-- The fields that decide the time left.
pub record SameCount (s t : Timer) : Type 0 where
  pub start_same : s.start_time ≡ t.start_time
  pub pause_same : s.pause_time ≡ t.pause_time
  pub running_same : s.is_running ≡ t.is_running
  pub paused_same : s.is_paused ≡ t.is_paused
  pub accumulated_same : s.accumulated_pause_time ≡ t.accumulated_pause_time
  pub target_same : s.target_duration_ms ≡ t.target_duration_ms

pub check-SameCount : (now : Place → ℕ) (t : Timer) → SameCount (check_timer_alert now t) t
unfolding check_timer_alert send_alert rearm_alert
check-SameCount now t = ground arith

-- Drawing the module never changes the countdown.
pub refresh-SameCount : (now : Place → ℕ) (wall : ℤ) (t : Timer) → SameCount (refresh now wall t) t
unfolding refresh update apply_colors show
refresh-SameCount now wall t = ground (arith, check-SameCount now (apply_colors now t))

-- What holds between two operations: the target is no negative duration, only a timer that runs
-- is paused, and a timer that runs has something to count.
pub record IsValid (t : Timer) : Type 0 where
  pub target_nonneg : pos 0 ≤ℤ t.target_duration_ms
  pub paused_runs : t.is_paused ≡ true → t.is_running ≡ true
  pub running_counts : t.is_running ≡ true → pos 1 ≤ℤ t.target_duration_ms

new_timer-IsValid : IsValid new_timer
unfolding new_timer
new_timer-IsValid = ground arith

IsValid-SameCount : {s t : Timer} → SameCount s t → IsValid t → IsValid s
IsValid-SameCount e v = ground arith

toggled-IsValid :
    (now : Place → ℕ) (wall : ℤ) (t : Timer) → IsValid t → IsValid (toggled now wall t)
unfolding toggled
toggled-IsValid now wall t v = ground arith

adjusted-IsValid :
    (now : Place → ℕ) (wall ms : ℤ) (t : Timer)
    → t.is_running ≡ false
    → IsValid t
    → IsValid (adjusted now wall ms t)
unfolding adjusted
adjusted-IsValid now wall ms t stopped v = ground arith

-- Every handler keeps it, at any time.
pub perform-IsValid :
    (now : Place → ℕ) (wall : ℤ) (a : Action) (t : Timer)
    → IsValid t
    → IsValid (perform now wall a t)
unfolding perform
perform-IsValid now wall Action.play_pause t v =
    IsValid-SameCount (refresh-SameCount now wall _) (toggled-IsValid now wall t v)
perform-IsValid now wall Action.reset t v =
    ground (arith, refresh-SameCount now wall (cleared now wall t))
perform-IsValid now wall Action.toggle_details t v =
    IsValid-SameCount (refresh-SameCount now wall _) (ground arith)
perform-IsValid now wall (Action.adjust ms) t v =
    ground
      (arith, refresh-SameCount now wall (adjusted now wall ms t), adjusted-IsValid now wall ms t)

-- While the countdown is paused the time left does not depend on the clock.
remaining_ms_frozen :
    (t : Timer) (now later : ℕ) → t.is_paused ≡ true → remaining_ms now t ≡ remaining_ms later t
unfolding remaining_ms
remaining_ms_frozen t now later h = ground arith

pub remaining_ms-SameCount :
    {s t : Timer} (now : ℕ) → SameCount s t → remaining_ms now s ≡ remaining_ms now t
unfolding remaining_ms
remaining_ms-SameCount now e = ground arith

toggled-SameCount :
    {s t : Timer} (now : Place → ℕ) (wall : ℤ)
    → SameCount s t
    → SameCount (toggled now wall s) (toggled now wall t)
unfolding toggled
toggled-SameCount now wall e = ground arith

pub SameCount-trans : {s t u : Timer} → SameCount s t → SameCount t u → SameCount s u
SameCount-trans e f = ground arith

abbrev clamp : ℤ → ℤ
clamp n = if is_positive n then n else pos 0

remaining_live :
    (t : Timer) (now : ℕ)
    → t.is_running ≡ true
    → t.is_paused ≡ false
    → remaining_ms now t
      ≡ clamp (t.target_duration_ms -ℤ (ms_between t.start_time now -ℤ t.accumulated_pause_time))
unfolding remaining_ms
remaining_live t now run live = ground arith

abbrev resumed_at : Timer → ℕ → ℕ → Timer
resumed_at t p r = record t {
  pause_time = p;
  is_paused = false;
  accumulated_pause_time = t.accumulated_pause_time +ℤ ms_between p r;
}

toggled_twice :
    (t : Timer) (p r : Place → ℕ) (wp wr : ℤ)
    → t.is_running ≡ true
    → t.is_paused ≡ false
    → toggled r wr (toggled p wp t) ≡ resumed_at t (p Place.action) (r Place.action)
unfolding toggled
toggled_twice t p r wp wr run live = ground arith

clamp_close :
    (u v : ℤ) → u ≤ℤ v → v ≤ℤ u +ℤ pos 1 → (clamp u ≤ℤ clamp v) × (clamp v ≤ℤ clamp u +ℤ pos 1)
unfolding ◌+ℤ◌
clamp_close u v h k = ground arith

resumed_remaining :
    (t : Timer) (p r : Place → ℕ) (wp wr : ℤ)
    → t.is_running ≡ true
    → t.is_paused ≡ false
    → t.start_time ≤ p Place.action
    → p Place.action ≤ r Place.action
    → let before = remaining_ms (p Place.action) t in
      let after = remaining_ms (r Place.action) (toggled r wr (toggled p wp t)) in
      (after ≤ℤ before) × (before ≤ℤ after +ℤ pos 1)
resumed_remaining t p r wp wr run live started later =
    let at = p Place.action in
    let back = r Place.action in
    let x = t.accumulated_pause_time in
    let u = t.target_duration_ms -ℤ (ms_between t.start_time back -ℤ (x +ℤ ms_between at back)) in
    let v = t.target_duration_ms -ℤ (ms_between t.start_time at -ℤ x) in
    let split = ms_between_split t.start_time at back started later in
    rw (toggled_twice t p r wp wr run live, remaining_live t (p Place.action) run live)
      (rw
        (remaining_live (resumed_at t (p Place.action) (r Place.action)) (r Place.action) run refl)
        (clamp_close u v (omega int_laws) (omega int_laws)))

-- A pause of a countdown that runs and the resumption after it, on a clock that does not go
-- back, leave the time that was left at the pause, or one millisecond less: each of the three
-- intervals is rounded down.
pub pause-resume :
    (t : Timer) (p r : Place → ℕ) (wp wr : ℤ)
    → t.is_running ≡ true
    → t.is_paused ≡ false
    → t.start_time ≤ p Place.action
    → p Place.action ≤ r Place.action
    → let before = remaining_ms (p Place.action) t in
      let after = remaining_ms (r Place.action) (play_pause r wr (play_pause p wp t)) in
      (after ≤ℤ before) × (before ≤ℤ after +ℤ pos 1)
unfolding play_pause
pause-resume t p r wp wr run live started later =
    let paused = toggled p wp t in
    let resumed = toggled r wr (refresh p wp paused) in
    let same =
      SameCount-trans (refresh-SameCount r wr resumed)
        (toggled-SameCount r wr (refresh-SameCount p wp paused)) in
    rw (remaining_ms-SameCount (r Place.action) same)
      (resumed_remaining t p r wp wr run live started later)
