-- ===== src/Tests/Clocks.antt =====
-- The countdown, the stopwatch and the clock (modules/timer.h, modules/stopwatch.h,
-- modules/datetime.h) at chosen readings.
use photonbar.Common.{
  ℕ, ◌+◌, ◌*◌, ◌/◌, ◌<◌, ◌≤◌, ◌≡◌, refl, Bool, true, false, not, Option, none, some, List, [], ◌∷◌,
  arith, take, get_or,
}
use photonbar.Common.Int.{ℤ, pos, negsuc, ◌≤ℤ◌, ◌+ℤ◌}
use photonbar.Timer
use photonbar.Timer.Clock
use photonbar.Timer.Clock.{remaining_ms}
use photonbar.Timer.Handlers.{new_timer}
use photonbar.Timer.Handlers
use photonbar.Timer.Pause
use photonbar.Timer.Alert.{IsUp, notices, updates, alert_once}
use photonbar.Stopwatch
use photonbar.Stopwatch.{get_elapsed_ms, new_stopwatch}
use photonbar.Stopwatch.Pause.{run, run_nonneg}
use photonbar.Datetime.{Tm, clock_text}
use photonbar.Datetime.Text.{IsTm, read2, clock_text-reads}

abbrev at : ℕ → Timer.Clock.Place → ℕ
at n place = n

-- Ten seconds, started at the time 0 of the clock.
abbrev ten : Timer.Clock.Timer
ten = record new_timer { is_running = true; target_duration_ms = pos 10000 }

-- Paused after 1.5 milliseconds and resumed after 3.7.
pause-resume_example :
    let before = remaining_ms 1500000 ten in
    let after = remaining_ms 3700000 (
      Timer.Handlers.play_pause
        (at 3700000)
        (pos 2)
        (Timer.Handlers.play_pause (at 1500000) (pos 1) ten)) in
    (after ≤ℤ before) × (before ≤ℤ after +ℤ pos 1)
unfolding new_timer
pause-resume_example =
    Timer.Pause.pause-resume ten (at 1500000) (at 3700000) (pos 1) (pos 2) refl refl (omega arith)
      (omega arith)

ten-IsUp : IsUp ten (at 10000000000)
unfolding remaining_ms new_timer photonbar.Common.Int.◌-ℤ◌ photonbar.Common.Steady.ms_between
    photonbar.Common.Int.div_ℤ
ten-IsUp = record { runs = refl; unpaused = refl; none_left = refl; none_later = refl }

alert_once_example :
    notices (updates ((at 10000000000, pos 1) ∷ (at 10000000000, pos 2) ∷ []) ten).effects ≡ 1
unfolding new_timer
alert_once_example =
    alert_once (at 10000000000) (pos 1) ((at 10000000000, pos 2) ∷ []) ten
      (ten-IsUp, (ten-IsUp, tt)) refl

ten-IsValid : Timer.Pause.IsValid ten
unfolding new_timer
ten-IsValid = ground arith

perform-IsValid_example :
    Timer.Pause.IsValid
      (Timer.Handlers.perform (at 5) (pos 1) (Timer.Clock.Action.adjust (negsuc 999)) ten)
perform-IsValid_example =
    Timer.Pause.perform-IsValid (at 5) (pos 1) (Timer.Clock.Action.adjust (negsuc 999)) ten
      ten-IsValid

abbrev read : ℕ → Stopwatch.Place → ℕ
read n place = n

abbrev running : Stopwatch.Stopwatch
running = record new_stopwatch { is_running = true }

abbrev presses : List (Stopwatch.Action × (Stopwatch.Place → ℕ) × ℤ)
presses =
    (Stopwatch.Action.press_play, read 100, pos 1)
    ∷ (Stopwatch.Action.press_play, read 5000000, pos 2)
    ∷ []

run_nonneg_example :
    (pos 0 ≤ℤ get_elapsed_ms 9000000 (run presses new_stopwatch))
    × ((run presses new_stopwatch).is_paused ≡ true → (run presses new_stopwatch).is_running ≡ true)
run_nonneg_example = run_nonneg presses 9000000 ((omega arith), ((omega arith), (omega arith)))

-- Wednesday, the 7th of January 2026, 12:34:56.
abbrev noon : Tm
noon = record { sec = 56; min = 34; hour = 12; mday = 7; mon = 0; year = 126; wday = 3 }

noon-IsTm : IsTm noon
noon-IsTm = ground arith

clock_text-reads_example :
    (read2 (clock_text true noon) 4 ≡ 7)
    × (read2 (clock_text true noon) 7 ≡ 1)
    × (read2 (clock_text true noon) 10 * 100 + read2 (clock_text true noon) 12 ≡ 2026)
    × (read2 (clock_text true noon) 15 ≡ 12)
    × (read2 (clock_text true noon) 18 ≡ 34)
    × (read2 (clock_text true noon) 21 ≡ 56)
clock_text-reads_example = clock_text-reads true noon noon-IsTm
