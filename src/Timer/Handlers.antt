-- ===== src/Timer/Handlers.antt =====
-- The handlers of modules/timer.h, which elements they are on, and its constructor.
use photonbar.Common.{ℕ, true, false, not, ◌&&◌, [], if◌then◌else◌}
use photonbar.Common.Int.{ℤ, pos, negsuc, ◌+ℤ◌, ltb_ℤ}
use photonbar.BarElement.{BarElement, EventType, new_element, set_event}
use photonbar.Common.Steady.{ms_between}
use photonbar.Timer.Clock.{Timer, Action, Place, remaining_ms, is_positive}
use photonbar.Timer.{refresh}

module _ (now : Place → ℕ) (wall : ℤ) where
  -- `adjustTime(ms)` before it refreshes.
  unfoldable pub adjusted : ℤ → Timer → Timer
  adjusted ms t =
      let target = t.target_duration_ms +ℤ ms in
      record t { target_duration_ms = if ltb_ℤ target (pos 0) then pos 0 else target }

  unfoldable pub adjust_time : ℤ → Timer → Timer
  unfolding adjusted
  adjust_time ms t = if t.is_running then t else refresh now wall (adjusted ms t)

  -- `playPause()` before it refreshes.
  unfoldable pub toggled : Timer → Timer
  toggled t =
      let at = now Place.action in
      if not t.is_running
      then if is_positive t.target_duration_ms
        then record t {
          start_time = at;
          is_running = true;
          is_paused = false;
          accumulated_pause_time = pos 0;
        }
        else t
      else if t.is_paused
      then record t {
        accumulated_pause_time = t.accumulated_pause_time +ℤ ms_between t.pause_time at;
        is_paused = false;
      }
      else record t { pause_time = at; is_paused = true }

  unfoldable pub play_pause : Timer → Timer
  unfolding toggled
  play_pause t = refresh now wall (toggled t)

  -- `reset()` before it refreshes, past its guard.
  unfoldable pub cleared : Timer → Timer
  cleared t = record t {
    accumulated_pause_time = pos 0;
    target_duration_ms = pos 0;
    is_running = false;
    is_paused = false;
  }

  unfoldable pub reset : Timer → Timer
  unfolding cleared
  reset t =
      if t.is_running && not t.is_paused && is_positive (remaining_ms (now Place.action) t)
      then t
      else refresh now wall (cleared t)

  unfoldable pub toggle_details : Timer → Timer
  toggle_details t = refresh now wall (record t { show_details = not t.show_details })

  -- The handlers, as the elements call them.
  unfoldable pub perform : Action → Timer → Timer
  unfolding play_pause reset toggle_details adjust_time
  perform Action.play_pause t = play_pause t
  perform Action.reset t = reset t
  perform Action.toggle_details t = toggle_details t
  perform (Action.adjust ms) t = adjust_time ms t

-- `configureAllEvents`: clicks everywhere, the wheel on the three elements of time.
abbrev with_clicks : BarElement Action → BarElement Action
with_clicks e = set_event EventType.click_right Action.toggle_details (
    set_event EventType.click_middle Action.reset
      (set_event EventType.click_left Action.play_pause e))

abbrev with_wheel : ℤ → ℤ → BarElement Action → BarElement Action
with_wheel up down e =
    set_event EventType.scroll_down (Action.adjust down)
      (set_event EventType.scroll_up (Action.adjust up) e)

unfoldable pub new_timer : Timer
new_timer = record {
  base = with_clicks new_element;
  play_icon = with_clicks new_element;
  hour = with_wheel (pos 3600000) (negsuc 3599999) (with_clicks new_element);
  minute = with_wheel (pos 60000) (negsuc 59999) (with_clicks new_element);
  second = with_wheel (pos 1000) (negsuc 999) (with_clicks new_element);
  start_time = 0;
  pause_time = 0;
  is_running = false;
  is_paused = false;
  show_details = false;
  accumulated_pause_time = pos 0;
  target_duration_ms = pos 0;
  notification_sent = false;
  last_update = pos 0;
  render_set = false;
  effects = [];
}
