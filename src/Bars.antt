-- ===== src/Bars.antt =====
-- main.cpp, the modules of the two bars, each with its own state behind module.h's interface.
-- `Answers` is what one round of a bar is told by the clocks, the files and the services that the
-- modules ask. The wall clock is read once in a round.
pub mod Rate
pub mod Press
pub mod Shown
pub mod Serve
pub mod Drawn
pub mod Dirty
pub mod Kept
pub mod Elements
use photonbar.Common.{ℕ, suc, Bool, true, false, Option, List, [], ◌∷◌, Bytes, ascii, if◌then◌else◌}
use photonbar.Common.Int.{ℤ, pos}
use photonbar.Common.Floats.{Floats}
use photonbar.Module.{Module, Interface, check_and_update}
use photonbar.Workspace
use photonbar.Audio
use photonbar.Battery
use photonbar.Notifications
use photonbar.Weather
use photonbar.Datetime
use photonbar.Ping
use photonbar.Timer
use photonbar.Timer.Clock
use photonbar.Timer.Handlers
use photonbar.Stopwatch
use photonbar.Space
use photonbar.Resources

-- A module of one of the classes, with whether `setRenderFunction` has been called where its
-- state does not say so.
pub data BarModule (W : Type 0) : Type 0 where
  workspace : Workspace.Workspace → BarModule W
  audio : Audio.Audio → BarModule W
  battery : Battery.Battery W → Bool → BarModule W
  notifications : Notifications.Notifications → BarModule W
  weather : Weather.Weather W → Bool → BarModule W
  datetime : Datetime.Datetime → BarModule W
  network : Ping.Ping W → Bool → BarModule W
  timer : Clock.Timer → BarModule W
  stopwatch : Stopwatch.Stopwatch → BarModule W
  space : Space.Space W → Bool → BarModule W
  resources : Resources.Resources → Bool → BarModule W

pub record Answers (W : Type 0) : Type 0 where
  pub wall : ℕ
  pub steady : ℕ
  pub timer_clock : Clock.Place → ℕ
  pub stopwatch_clock : Stopwatch.Place → ℕ
  pub tm : Datetime.Tm
  pub workspaces : Option (List Workspace.Reply)
  pub workspaces_again : Option (List Workspace.Reply)
  pub i3_fd : ℤ
  pub audio_ready : Bool
  pub sinks : Audio.Answers
  pub supply : Battery.Files
  pub dunst : Notifications.Dunst
  pub curl_handle : Bool
  pub forecast : Weather.Reply
  pub traffic : Ping.Traffic
  pub latency : W
  pub statvfs : Option Space.Statvfs
  pub meminfo : Option (List Bytes)
  pub stat : Option Bytes
  pub sensors : List (Option Bytes)

-- The part of `Module` that these classes keep in fields of their own.
abbrev timed : Bytes → ℤ → ℤ → Bool → Module
timed name seconds last render_set = record {
  name = name;
  auto_update = false;
  seconds_per_update = seconds;
  last_update = last;
  render_set = render_set;
}

unfoldable pub base : {W : Type 0} → BarModule W → Module
base (BarModule.workspace s) = s.base
base (BarModule.audio s) = s.base
base (BarModule.battery s r) = timed (ascii "battery") (pos 5) s.last_update r
base (BarModule.notifications s) = s.base
base (BarModule.weather s r) = timed (ascii "weather") (pos 600) s.last_update r
base (BarModule.datetime s) = s.base
base (BarModule.network s r) = timed (ascii "network") (pos 1) s.last_update r
base (BarModule.timer s) = timed (ascii "timer") (pos 1) s.last_update s.render_set
base (BarModule.stopwatch s) = timed (ascii "stopwatch") (pos 1) s.last_update s.render_set
base (BarModule.space s r) = timed (ascii "space") (pos 30) s.last_update r
base (BarModule.resources s r) = timed (ascii "resources") (pos 2) s.last_update r

-- The libraries that the modules stand on: floating point, `atoi`, PA_VOLUME_NORM, the reader of
-- JSON.
pub record Libraries (W : Type 0) : Type 0 where
  pub floats : Floats W
  pub atoi : Bytes → ℤ
  pub volume_norm : ℕ
  pub parse : Bytes → Option (Weather.Forecast W)

module _ {W : Type 0} (l : Libraries W) (a : Answers W) where
  unfoldable pub update : BarModule W → BarModule W
  update (BarModule.workspace s) =
      BarModule.workspace (Workspace.update_elements a.workspaces a.workspaces_again s)
  update (BarModule.audio s) = BarModule.audio (Audio.update l.volume_norm a.steady a.sinks s)
  update (BarModule.battery s r) =
      BarModule.battery (Battery.update l.floats a.supply (pos a.wall) s).0 r
  update (BarModule.notifications s) =
      BarModule.notifications (Notifications.update l.atoi a.dunst s)
  update (BarModule.weather s r) =
      BarModule.weather (Weather.update l.floats l.parse a.curl_handle a.forecast (pos a.wall) s) r
  update (BarModule.datetime s) = BarModule.datetime (Datetime.update (pos a.wall) a.tm s)
  update (BarModule.network s r) =
      BarModule.network (Ping.update l.floats a.traffic a.latency (pos a.wall) s) r
  update (BarModule.timer s) = BarModule.timer (Timer.update a.timer_clock (pos a.wall) s)
  update (BarModule.stopwatch s) =
      BarModule.stopwatch (Stopwatch.update a.stopwatch_clock (pos a.wall) s)
  update (BarModule.space s r) = BarModule.space (Space.update l.floats a.statvfs a.wall s) r
  update (BarModule.resources s r) =
      BarModule.resources (Resources.update l.floats a.meminfo a.stat a.sensors (pos a.wall) s) r

  -- `initialize`, which most modules inherit.
  unfoldable pub initialize : BarModule W → BarModule W × Bool
  initialize (BarModule.workspace s) =
      let (s', ready) = Workspace.initialize a.i3_fd s in (BarModule.workspace s', ready)
  initialize (BarModule.audio s) = (BarModule.audio s, a.audio_ready)
  initialize (BarModule.notifications s) =
      (BarModule.notifications (Notifications.update l.atoi a.dunst s), true)
  initialize (BarModule.weather s r) =
      let (s', ready) = Weather.initialize l.floats l.parse a.forecast (pos a.wall) s in
      (BarModule.weather s' r, ready)
  initialize (BarModule.battery s r) = (BarModule.battery s r, true)
  initialize (BarModule.datetime s) = (BarModule.datetime s, true)
  initialize (BarModule.network s r) = (BarModule.network s r, true)
  initialize (BarModule.timer s) = (BarModule.timer s, true)
  initialize (BarModule.stopwatch s) = (BarModule.stopwatch s, true)
  initialize (BarModule.space s r) = (BarModule.space s r, true)
  initialize (BarModule.resources s r) = (BarModule.resources s r, true)

  -- The virtual functions in a round with these answers.
  abbrev pub interface : Interface (BarModule W)
  interface = record { base = base; update = update; initialize = initialize }

-- One module over rounds whose `select` times out, one after another, with the answers of each, and
-- how often it is updated. There are no events in such a round, and no handler runs.
unfoldable pub timeouts :
    {W : Type 0} → Libraries W → List (Answers W) → BarModule W → BarModule W × ℕ
timeouts l [] m = (m, 0)
timeouts l (a ∷ later) m =
    let (next, updated) = check_and_update (interface l a) (pos a.wall) m in
    let (last, n) = timeouts l later next in (last, if updated then suc n else n)

-- The bars as `main` puts them together.
module _ {W : Type 0} (l : Libraries W) where
  unfoldable pub top_left : ℤ → Option (List Workspace.Reply) → List (BarModule W)
  top_left i3_fd workspaces = BarModule.workspace (Workspace.new_workspace i3_fd workspaces) ∷ []

  unfoldable pub top_right : Audio.SinkInfo → Bool → List (BarModule W)
  top_right sink curl_handle =
      BarModule.audio (Audio.new_audio sink)
      ∷ BarModule.battery (Battery.new_battery l.floats) false
      ∷ BarModule.notifications Notifications.new_notifications
      ∷ BarModule.weather (Weather.new_weather l.floats curl_handle) false
      ∷ BarModule.datetime Datetime.new_datetime
      ∷ []

  unfoldable pub bottom_left : List (BarModule W)
  bottom_left =
      BarModule.timer Handlers.new_timer ∷ BarModule.stopwatch Stopwatch.new_stopwatch ∷ []

  unfoldable pub bottom_right : Ping.Traffic → List (BarModule W)
  bottom_right traffic =
      BarModule.space (Space.new_space l.floats) false
      ∷ BarModule.resources Resources.new_resources false
      ∷ BarModule.network (Ping.new_ping l.floats traffic) false
      ∷ []
