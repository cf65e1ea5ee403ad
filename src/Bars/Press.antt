-- ===== src/Bars/Press.antt =====
-- The handlers that the modules put on their elements, with whether they draw the bar.
use photonbar.Common.{ℕ, Bool, false, not, ◌&&◌, Option, none, some, leb, length}
use photonbar.Common.Int.{pos}
use photonbar.Bars.{BarModule, Answers, Libraries}
use photonbar.Workspace
use photonbar.Audio
use photonbar.Notifications
use photonbar.Weather
use photonbar.Datetime
use photonbar.Ping
use photonbar.Timer.Clock
use photonbar.Timer.Handlers
use photonbar.Stopwatch
use photonbar.Space

pub data Action : Type 0 where
  workspace : Workspace.Action → Action
  audio : Audio.Action → Action
  notifications : Notifications.Action → Action
  weather : Weather.Action → Action
  datetime : Datetime.Action → Action
  network : Ping.Action → Action
  timer : Clock.Action → Action
  stopwatch : Stopwatch.Action → Action
  space : Space.Action → Action

-- The handlers of the countdown and of the audio module that return early.
unfoldable pub timer_returns : (Clock.Place → ℕ) → Clock.Action → Clock.Timer → Bool
timer_returns now Clock.Action.play_pause t = false
timer_returns now Clock.Action.reset t =
    t.is_running
    && not t.is_paused
    && Clock.is_positive (Clock.remaining_ms (now Clock.Place.action) t)
timer_returns now Clock.Action.toggle_details t = false
timer_returns now (Clock.Action.adjust ms) t = t.is_running

unfoldable pub audio_returns : Audio.Action → Audio.Audio → Bool
audio_returns Audio.Action.toggle_mute a = false
audio_returns Audio.Action.cycle_sinks a = leb (length a.all_sinks) 1
audio_returns (Audio.Action.adjust_volume delta) a = false

-- A handler of another class than the module's is never met.
unfoldable pub as_workspace : Action → Option Workspace.Action
as_workspace (Action.workspace h) = some h
as_workspace h = none

unfoldable pub as_audio : Action → Option Audio.Action
as_audio (Action.audio h) = some h
as_audio h = none

unfoldable pub as_notifications : Action → Option Notifications.Action
as_notifications (Action.notifications h) = some h
as_notifications h = none

unfoldable pub as_weather : Action → Option Weather.Action
as_weather (Action.weather h) = some h
as_weather h = none

unfoldable pub as_datetime : Action → Option Datetime.Action
as_datetime (Action.datetime h) = some h
as_datetime h = none

unfoldable pub as_network : Action → Option Ping.Action
as_network (Action.network h) = some h
as_network h = none

unfoldable pub as_timer : Action → Option Clock.Action
as_timer (Action.timer h) = some h
as_timer h = none

unfoldable pub as_stopwatch : Action → Option Stopwatch.Action
as_stopwatch (Action.stopwatch h) = some h
as_stopwatch h = none

unfoldable pub as_space : Action → Option Space.Action
as_space (Action.space h) = some h
as_space h = none

-- What `run` makes of a module, where there is a handler for it.
unfoldable pub handle : {M H : Type 0} → (H → M × Bool) → Option H → M → M × Bool
handle run none m = (m, false)
handle run (some h) m = run h

module _ {W : Type 0} (l : Libraries W) (a : Answers W) where
  -- The module behind a handler, and whether the bar has been drawn: that is done by the function
  -- that `setRenderFunction` has stored, if it has. The clock and the network call it without a test.
  unfoldable pub press : Action → BarModule W → BarModule W × Bool
  press h (BarModule.workspace s) =
      handle (λ k. (BarModule.workspace s, s.base.render_set)) (as_workspace h)
        (BarModule.workspace s)
  press h (BarModule.audio s) =
      handle
        (λ k. (
          BarModule.audio (Audio.perform l.volume_norm k a.sinks s),
          s.base.render_set && not (audio_returns k s),
        ))
        (as_audio h) (BarModule.audio s)
  press h (BarModule.battery s r) = (BarModule.battery s r, false)
  press h (BarModule.notifications s) =
      handle
        (λ k.
          (BarModule.notifications (Notifications.perform k l.atoi a.dunst s), s.base.render_set))
        (as_notifications h) (BarModule.notifications s)
  press h (BarModule.weather s r) =
      handle
        (λ k. (
          BarModule.weather
              (Weather.click l.floats l.parse r a.curl_handle a.forecast (pos a.wall) s) r,
          r,
        ))
        (as_weather h) (BarModule.weather s r)
  press h (BarModule.datetime s) =
      handle (λ k. (BarModule.datetime (Datetime.perform k (pos a.wall) a.tm s), s.base.render_set))
        (as_datetime h) (BarModule.datetime s)
  press h (BarModule.network s r) =
      handle
        (λ k. (BarModule.network (Ping.click l.floats a.traffic a.latency (pos a.wall) s) r, r))
        (as_network h) (BarModule.network s r)
  press h (BarModule.timer s) =
      handle
        (λ k. (
          BarModule.timer (Handlers.perform a.timer_clock (pos a.wall) k s),
          s.render_set && not (timer_returns a.timer_clock k s),
        ))
        (as_timer h) (BarModule.timer s)
  press h (BarModule.stopwatch s) =
      handle
        (λ k. (
          BarModule.stopwatch (Stopwatch.perform a.stopwatch_clock (pos a.wall) k s),
          s.render_set,
        ))
        (as_stopwatch h) (BarModule.stopwatch s)
  press h (BarModule.space s r) =
      handle (λ k. (BarModule.space (Space.click l.floats r a.statvfs a.wall s) r, r)) (as_space h)
        (BarModule.space s r)
  press h (BarModule.resources s r) = (BarModule.resources s r, false)
