-- ===== src/Timer.antt =====
-- modules/timer.h: the countdown. Time points of the steady clock are numbers of nanoseconds; an
-- operation that reads the clock several times is given a reading for each place that reads it.
-- A `long long` is an integer: it holds centuries of milliseconds.
pub mod Clock
pub mod Handlers
pub mod Pause
pub mod Alert
pub mod Display
use photonbar.Timer.Clock.{Timer, Action, Place, remaining_ms, is_positive, Effect}
use photonbar.Common.{
  ℕ, ◌+◌, Bool, true, false, not, ◌&&◌, ◌||◌, List, [], ◌∷◌, ◌++◌, ascii, if◌then◌else◌, Bytes,
}
use photonbar.Common.Int.{ℤ, pos, negsuc, ◌+ℤ◌, div_ℤ, mod_ℤ, eqb_ℤ, ltb_ℤ}
use photonbar.Common.Format.{to_int, format_02d}
use photonbar.BarElement.{BarElement, set_text, set_color}
use photonbar.Color.{Color}
use photonbar.Palette.{default_color, red_color, orange_color, light_green_color}
use photonbar.Utf8.{encode_utf8}

abbrev pub icon_play : Bytes
icon_play = 32 ∷ encode_utf8 0xf04b

abbrev pub icon_pause : Bytes
icon_pause = 32 ∷ encode_utf8 0xf04c

abbrev pub icon_logo : Bytes
icon_logo = encode_utf8 0xf06ad

-- The colour that the body of the loop in `applyColors` gives at a reading of the clock.
unfoldable pub state_color : ℕ → Timer → Color
state_color now t =
    if not t.is_running
    then default_color
    else if t.is_paused
    then orange_color
    else if eqb_ℤ (remaining_ms now t) (pos 0)
    then red_color
    else light_green_color

unfoldable pub apply_colors : (Place → ℕ) → Timer → Timer
apply_colors now t = record t {
  base = set_color (state_color (now Place.color_base) t) t.base;
  play_icon = set_color (state_color (now Place.color_play) t) t.play_icon;
  hour = set_color (state_color (now Place.color_hour) t) t.hour;
  minute = set_color (state_color (now Place.color_minute) t) t.minute;
  second = set_color (state_color (now Place.color_second) t) t.second;
}

-- The first `if` of `checkTimerAlert`.
unfoldable pub send_alert : ℕ → Timer → Timer
send_alert now t =
    if eqb_ℤ (remaining_ms now t) (pos 0)
      && t.is_running
      && not t.is_paused
      && not t.notification_sent
    then record t { notification_sent = true; effects = t.effects ++ (Effect.notified ∷ []) }
    else t

-- The second.
unfoldable pub rearm_alert : ℕ → Timer → Timer
rearm_alert now t =
    if is_positive (remaining_ms now t) || not t.is_running || t.is_paused
    then record t { notification_sent = false }
    else t

unfoldable pub check_timer_alert : (Place → ℕ) → Timer → Timer
check_timer_alert now t = rearm_alert (now Place.rearm) (send_alert (now Place.alert) t)

unfoldable pub play_text : Timer → Bytes
play_text t =
    if not t.show_details
    then []
    else if not t.is_running
    then icon_play ++ (32 ∷ [])
    else (if t.is_paused then icon_play else icon_pause) ++ (32 ∷ [])

unfoldable pub hours : ℤ → ℤ
hours remaining = to_int (div_ℤ remaining 3600000)

unfoldable pub minutes : ℤ → ℤ
minutes remaining = to_int (div_ℤ (mod_ℤ remaining 3600000) 60000)

unfoldable pub seconds : ℤ → ℤ
seconds remaining = to_int (div_ℤ (mod_ℤ remaining 60000) 1000)

-- What `update` does behind `checkTimerAlert`.
unfoldable pub show : ℤ → ℤ → Timer → Timer
show remaining wall t = record t {
  base = set_text icon_logo t.base;
  play_icon = set_text (play_text t) t.play_icon;
  hour =
      set_text (if t.show_details then b'-' ∷ (format_02d (hours remaining) ++ (b':' ∷ [])) else [])
        t.hour;
  minute =
      set_text (if t.show_details then format_02d (minutes remaining) ++ (b':' ∷ []) else [])
        t.minute;
  second = set_text (if t.show_details then format_02d (seconds remaining) else []) t.second;
  last_update = wall;
}

unfoldable pub update : (Place → ℕ) → ℤ → Timer → Timer
update now wall t =
    let checked = check_timer_alert now (apply_colors now t) in
    show (remaining_ms (now Place.display) checked) wall checked

-- `update(); if (renderFunction) renderFunction();`
unfoldable pub refresh : (Place → ℕ) → ℤ → Timer → Timer
refresh now wall t =
    let shown = update now wall t in
    if t.render_set
    then record shown { effects = shown.effects ++ (Effect.rendered ∷ []) }
    else shown
