-- ===== src/Stopwatch.antt =====
-- modules/stopwatch.h: the time that runs from a start, without the pauses. Readings of the clock
-- are given as in Timer; only one place of a drawing reads it.
pub mod Pause
use photonbar.Common.{
  ℕ, suc, Bool, true, false, not, List, [], ◌∷◌, ◌++◌, if◌then◌else◌, Bytes, length, take,
}
use photonbar.Common.Int.{ℤ, pos, ◌+ℤ◌, ◌-ℤ◌, div_ℤ, mod_ℤ}
use photonbar.Common.Format.{to_int, format_02d}
use photonbar.Common.Steady.{ms_between}
use photonbar.BarElement.{BarElement, EventType, new_element, set_event, set_text, set_color}
use photonbar.Color.{Color}
use photonbar.Palette.{default_color, orange_color, light_green_color}
use photonbar.Utf8.{encode_utf8}

pub data Action : Type 0 where
  press_play press_reset press_details : Action

-- The reading of a handler, and that of the drawing behind it.
pub data Place : Type 0 where
  action display : Place

pub record Stopwatch : Type 0 where
  pub base : BarElement Action
  pub time : BarElement Action
  pub start_time : ℕ
  pub pause_time : ℕ
  pub is_running : Bool
  pub is_paused : Bool
  pub show_details : Bool
  pub accumulated_pause_time : ℤ
  pub last_update : ℤ
  pub render_set : Bool
  pub renders : ℕ

abbrev icon_play : Bytes
icon_play = 32 ∷ encode_utf8 0xf04b

abbrev icon_pause : Bytes
icon_pause = 32 ∷ encode_utf8 0xf04c

abbrev icon_logo : Bytes
icon_logo = encode_utf8 0xf2f2

unfoldable pub get_elapsed_ms : ℕ → Stopwatch → ℤ
get_elapsed_ms now s =
    if not s.is_running
    then pos 0
    else if s.is_paused
    then ms_between s.start_time s.pause_time -ℤ s.accumulated_pause_time
    else ms_between s.start_time now -ℤ s.accumulated_pause_time

-- The text in a buffer of 64 bytes.
unfoldable pub format_time : ℤ → Bytes
format_time ms = take 63 (
    format_02d (to_int (div_ℤ ms 3600000))
    ++ (b':'
        ∷ (format_02d (to_int (div_ℤ (mod_ℤ ms 3600000) 60000))
            ++ (b':' ∷ format_02d (to_int (div_ℤ (mod_ℤ ms 60000) 1000))))))

unfoldable pub state_color : Stopwatch → Color
state_color s =
    if not s.is_running
    then default_color
    else if s.is_paused
    then orange_color
    else light_green_color

unfoldable pub apply_colors : Stopwatch → Stopwatch
apply_colors s = record s {
  base = set_color (state_color s) s.base;
  time = set_color (state_color s) s.time;
}

unfoldable pub time_text : ℤ → Stopwatch → Bytes
time_text elapsed s =
    let icon = if s.is_running then if s.is_paused then icon_play else icon_pause else [] in
    if s.show_details then icon ++ (32 ∷ format_time elapsed) else []

unfoldable pub update : (Place → ℕ) → ℤ → Stopwatch → Stopwatch
unfolding apply_colors
update now wall s =
    let colored = apply_colors s in
    let elapsed = get_elapsed_ms (now Place.display) colored in
    record colored {
      base = set_text icon_logo colored.base;
      time = set_text (time_text elapsed colored) colored.time;
      last_update = wall;
    }

unfoldable pub refresh : (Place → ℕ) → ℤ → Stopwatch → Stopwatch
refresh now wall s =
    let shown = update now wall s in
    if shown.render_set then record shown { renders = suc shown.renders } else shown

module _ (now : Place → ℕ) (wall : ℤ) where
  -- `playPause()` before it refreshes.
  unfoldable pub toggled : Stopwatch → Stopwatch
  toggled s =
      let at = now Place.action in
      if not s.is_running
      then record s {
        start_time = at;
        is_running = true;
        is_paused = false;
        accumulated_pause_time = pos 0;
      }
      else if s.is_paused
      then record s {
        accumulated_pause_time = s.accumulated_pause_time +ℤ ms_between s.pause_time at;
        is_paused = false;
      }
      else record s { pause_time = at; is_paused = true }

  unfoldable pub play_pause : Stopwatch → Stopwatch
  unfolding toggled
  play_pause s = refresh now wall (toggled s)

  unfoldable pub reset : Stopwatch → Stopwatch
  reset s =
      refresh now wall
        (record s { is_running = false; is_paused = false; accumulated_pause_time = pos 0 })

  unfoldable pub toggle_details : Stopwatch → Stopwatch
  toggle_details s = refresh now wall (record s { show_details = not s.show_details })

  unfoldable pub perform : Action → Stopwatch → Stopwatch
  unfolding play_pause reset toggle_details
  perform Action.press_play s = play_pause s
  perform Action.press_reset s = reset s
  perform Action.press_details s = toggle_details s

-- `configureAllEvents`: the same clicks on both elements.
abbrev with_clicks : BarElement Action → BarElement Action
with_clicks e = set_event EventType.click_right Action.press_details (
    set_event EventType.click_middle Action.press_reset
      (set_event EventType.click_left Action.press_play e))

unfoldable pub new_stopwatch : Stopwatch
new_stopwatch = record {
  base = with_clicks new_element;
  time = with_clicks new_element;
  start_time = 0;
  pause_time = 0;
  is_running = false;
  is_paused = false;
  show_details = false;
  accumulated_pause_time = pos 0;
  last_update = pos 0;
  render_set = false;
  renders = 0;
}
