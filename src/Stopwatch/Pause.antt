-- ===== src/Stopwatch/Pause.antt =====
-- The time that modules/stopwatch.h counts, across its handlers.
use photonbar.Common.{ℕ, ◌≤◌, true, false, ◌≡◌, refl, arith, [], ◌∷◌, List}
use photonbar.Common.Int.{ℤ, pos, ◌+ℤ◌, ◌-ℤ◌, ◌≤ℤ◌, int_laws, +ℤ_parts, -ℤ_parts}
use photonbar.Common.Steady.{ms_between, ms_between_split, ms_between_le}
use photonbar.Stopwatch.{
  Stopwatch, Place, Action, get_elapsed_ms, refresh, update, toggled, play_pause, perform,
  new_stopwatch,
}

-- The fields that decide the elapsed time.
pub record SameCount (s t : Stopwatch) : Type 0 where
  pub start_same : s.start_time ≡ t.start_time
  pub pause_same : s.pause_time ≡ t.pause_time
  pub running_same : s.is_running ≡ t.is_running
  pub paused_same : s.is_paused ≡ t.is_paused
  pub accumulated_same : s.accumulated_pause_time ≡ t.accumulated_pause_time

refresh-SameCount : (now : Place → ℕ) (wall : ℤ) (s : Stopwatch) → SameCount (refresh now wall s) s
unfolding refresh update
refresh-SameCount now wall s = ground arith

elapsed-SameCount :
    {s t : Stopwatch} (now : ℕ) → SameCount s t → get_elapsed_ms now s ≡ get_elapsed_ms now t
unfolding get_elapsed_ms
elapsed-SameCount now e = ground arith

toggled-SameCount :
    {s t : Stopwatch} (now : Place → ℕ) (wall : ℤ)
    → SameCount s t
    → SameCount (toggled now wall s) (toggled now wall t)
unfolding toggled
toggled-SameCount now wall e = ground arith

SameCount-trans : {s t u : Stopwatch} → SameCount s t → SameCount t u → SameCount s u
SameCount-trans e f = ground arith

-- What every handler keeps: no pause without a run, no pause counted that is longer than the run.
pub record IsValid (s : Stopwatch) (now : ℕ) : Type 0 where
  pub paused_runs : s.is_paused ≡ true → s.is_running ≡ true
  pub started : s.is_running ≡ true → s.start_time ≤ now
  pub paused_before : s.is_paused ≡ true → s.pause_time ≤ now
  pub paused_after : s.is_paused ≡ true → s.start_time ≤ s.pause_time
  pub elapsed_nonneg : pos 0 ≤ℤ get_elapsed_ms now s

elapsed_live :
    (s : Stopwatch) (now : ℕ)
    → s.is_running ≡ true
    → s.is_paused ≡ false
    → get_elapsed_ms now s ≡ ms_between s.start_time now -ℤ s.accumulated_pause_time
unfolding get_elapsed_ms
elapsed_live s now run live = ground arith

abbrev resumed_at : Stopwatch → ℕ → ℕ → Stopwatch
resumed_at s p r = record s {
  pause_time = p;
  is_paused = false;
  accumulated_pause_time = s.accumulated_pause_time +ℤ ms_between p r;
}

toggled_twice :
    (s : Stopwatch) (p r : Place → ℕ) (wp wr : ℤ)
    → s.is_running ≡ true
    → s.is_paused ≡ false
    → toggled r wr (toggled p wp s) ≡ resumed_at s (p Place.action) (r Place.action)
unfolding toggled
toggled_twice s p r wp wr run live = ground arith

-- A pause of a stopwatch that runs and the resumption after it, on a clock that does not go back,
-- add at most one millisecond to the time counted.
pause-resume_elapsed :
    (s : Stopwatch) (p r : Place → ℕ) (wp wr : ℤ)
    → s.is_running ≡ true
    → s.is_paused ≡ false
    → s.start_time ≤ p Place.action
    → p Place.action ≤ r Place.action
    → let before = get_elapsed_ms (p Place.action) s in
      let after = get_elapsed_ms (r Place.action) (play_pause r wr (play_pause p wp s)) in
      (before ≤ℤ after) × (after ≤ℤ before +ℤ pos 1)
unfolding play_pause
pause-resume_elapsed s p r wp wr run live started later =
    let at = p Place.action in
    let back = r Place.action in
    let same =
      SameCount-trans (refresh-SameCount r wr (toggled r wr (refresh p wp (toggled p wp s))))
        (toggled-SameCount r wr (refresh-SameCount p wp (toggled p wp s))) in
    let split = ms_between_split s.start_time at back started later in
    rw (elapsed-SameCount back same, toggled_twice s p r wp wr run live, elapsed_live s at run live)
      (rw (elapsed_live (resumed_at s at back) back run refl) (omega int_laws))

-- While it is paused the time counted does not depend on the clock; stopped, it is zero.
elapsed_frozen :
    (s : Stopwatch) (now later : ℕ)
    → s.is_paused ≡ true
    → get_elapsed_ms now s ≡ get_elapsed_ms later s
unfolding get_elapsed_ms
elapsed_frozen s now later h = ground arith

IsValid-SameCount : {s t : Stopwatch} (now : ℕ) → SameCount s t → IsValid t now → IsValid s now
IsValid-SameCount now e v = ground (arith, elapsed-SameCount now e)

ms_between_mono : (a b c : ℕ) → a ≤ b → b ≤ c → ms_between a b ≤ℤ ms_between a c
ms_between_mono a b c h k = rw (ms_between_le a b h, ms_between_le a c (omega arith)) (omega arith)

elapsed_mono :
    (s : Stopwatch) (now later : ℕ)
    → (s.is_running ≡ true → s.start_time ≤ now)
    → now ≤ later
    → get_elapsed_ms now s ≤ℤ get_elapsed_ms later s
unfolding get_elapsed_ms
elapsed_mono s now later h k = ground (
  arith,
  ms_between_mono s.start_time now later,
  -ℤ_parts (ms_between s.start_time now) s.accumulated_pause_time,
  -ℤ_parts (ms_between s.start_time later) s.accumulated_pause_time,
)

toggled-IsValid :
    (now : Place → ℕ) (wall : ℤ) (s : Stopwatch)
    → IsValid s (now Place.action)
    → IsValid (toggled now wall s) (now Place.action)
unfolding toggled get_elapsed_ms
toggled-IsValid now wall s v =
    let at = now Place.action in
    let a = s.accumulated_pause_time in
    let gone = ms_between s.pause_time at in
    ground (
      arith,
      ms_between_le at at,
      ms_between_split s.start_time s.pause_time at,
      -ℤ_parts (ms_between at at) (pos 0),
      -ℤ_parts (ms_between s.start_time s.pause_time) a,
      -ℤ_parts (ms_between s.start_time at) (a +ℤ gone),
      +ℤ_parts a gone,
      +ℤ_parts (ms_between s.start_time s.pause_time) gone,
    )

stopped-IsValid :
    (s : Stopwatch) (now : ℕ) → s.is_running ≡ false → s.is_paused ≡ false → IsValid s now
unfolding get_elapsed_ms
stopped-IsValid s now stop live = ground arith

-- Every handler keeps the invariant at its own reading of the clock.
perform-IsValid_at :
    (now : Place → ℕ) (wall : ℤ) (a : Action) (s : Stopwatch)
    → IsValid s (now Place.action)
    → IsValid (perform now wall a s) (now Place.action)
unfolding perform
perform-IsValid_at now wall Action.press_play s v =
    IsValid-SameCount (now Place.action) (refresh-SameCount now wall _)
      (toggled-IsValid now wall s v)
perform-IsValid_at now wall Action.press_reset s v =
    IsValid-SameCount (now Place.action) (refresh-SameCount now wall _)
      (stopped-IsValid _ (now Place.action) refl refl)
perform-IsValid_at now wall Action.press_details s v =
    IsValid-SameCount (now Place.action) (refresh-SameCount now wall _)
      (IsValid-SameCount (now Place.action) (ground arith) v)

IsValid-later : (s : Stopwatch) (now later : ℕ) → now ≤ later → IsValid s now → IsValid s later
IsValid-later s now later k v = ground (arith, elapsed_mono s now later v.started k)

-- The handlers that were called, each with its readings.
pub run : List (Action × (Place → ℕ) × ℤ) → Stopwatch → Stopwatch
run [] s = s
run ((a, now, wall) ∷ rest) s = run rest (perform now wall a s)

-- The clock of the handlers never goes back, from a reading on.
abbrev pub IsSteady : ℕ → List (Action × (Place → ℕ) × ℤ) → ℕ → Type 0
IsSteady at [] end = at ≤ end
IsSteady at ((a, now, wall) ∷ rest) end =
    (at ≤ now Place.action) × IsSteady (now Place.action) rest end

run-IsValid :
    (calls : List (Action × (Place → ℕ) × ℤ)) (s : Stopwatch) (at end : ℕ)
    → IsSteady at calls end
    → IsValid s at
    → IsValid (run calls s) end
unfolding run
run-IsValid [] s at end steady v = IsValid-later s at end steady v
run-IsValid ((a, now, wall) ∷ rest) s at end steady v =
    let next = now Place.action in
    run-IsValid rest (perform now wall a s) next end steady.1
      (perform-IsValid_at now wall a s (IsValid-later s at next steady.0 v))

-- After any handlers at all, with a clock that never goes back, a new stopwatch shows no negative
-- time, and only a stopwatch that runs is paused.
pub run_nonneg :
    (calls : List (Action × (Place → ℕ) × ℤ)) (end : ℕ)
    → IsSteady 0 calls end
    → (pos 0 ≤ℤ get_elapsed_ms end (run calls new_stopwatch))
      × ((run calls new_stopwatch).is_paused ≡ true → (run calls new_stopwatch).is_running ≡ true)
unfolding new_stopwatch
run_nonneg calls end steady =
    let v =
      run-IsValid calls new_stopwatch 0 end steady (stopped-IsValid new_stopwatch 0 refl refl) in
    (v.elapsed_nonneg, v.paused_runs)
