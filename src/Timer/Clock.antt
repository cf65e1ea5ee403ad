-- ===== src/Timer/Clock.antt =====
-- The state of modules/timer.h and `getRemainingMs`.
use photonbar.Common.{ℕ, Bool, not, List, if◌then◌else◌}
use photonbar.Common.Int.{ℤ, pos, ◌-ℤ◌, ltb_ℤ}
use photonbar.Common.Steady.{ms_between}
use photonbar.BarElement.{BarElement}

pub data Action : Type 0 where
  play_pause reset toggle_details : Action
  adjust : ℤ → Action

-- The places of one operation that read the steady clock.
pub data Place : Type 0 where
  action color_base color_play color_hour color_minute color_second alert rearm display : Place

-- What leaves the module: the notification of the end, and the call of the render function.
pub data Effect : Type 0 where
  notified rendered : Effect

pub record Timer : Type 0 where
  pub base : BarElement Action
  pub play_icon : BarElement Action
  pub hour : BarElement Action
  pub minute : BarElement Action
  pub second : BarElement Action
  pub start_time : ℕ
  pub pause_time : ℕ
  pub is_running : Bool
  pub is_paused : Bool
  pub show_details : Bool
  pub accumulated_pause_time : ℤ
  pub target_duration_ms : ℤ
  pub notification_sent : Bool
  pub last_update : ℤ
  pub render_set : Bool
  pub effects : List Effect

unfoldable pub actual_elapsed : ℕ → Timer → ℤ
actual_elapsed now t =
    if t.is_paused
    then ms_between t.start_time t.pause_time -ℤ t.accumulated_pause_time
    else ms_between t.start_time now -ℤ t.accumulated_pause_time

abbrev pub is_positive : ℤ → Bool
is_positive n = ltb_ℤ (pos 0) n

unfoldable pub remaining_ms : ℕ → Timer → ℤ
unfolding actual_elapsed
remaining_ms now t =
    let remaining = t.target_duration_ms -ℤ actual_elapsed now t in
    if not t.is_running
    then t.target_duration_ms
    else if is_positive remaining
    then remaining
    else pos 0
