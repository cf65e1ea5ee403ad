-- ===== src/Tests/Modules.antt =====
-- The modules of the bars over a few rounds.
use photonbar.Common.{
  ℕ, ◌+◌, ◌*◌, ◌≤◌, ◌≡◌, ◌⊎◌, refl, true, false, Option, none, some, List, [], ◌∷◌, arith,
}
use photonbar.Common.Int.{pos, negsuc}
use photonbar.Bars.{BarModule, Answers, Libraries, update, timeouts}
use photonbar.Bars.Press.{Action}
use photonbar.Bars.Serve.{Seat, sides, top_modules, bottom_modules, serve_top, serve_bottom}
use photonbar.Bars.Shown.{serve-shows}
use photonbar.Bars.Dirty.{Marked, update-Marked}
use photonbar.Bars.Elements.{get_elements}
use photonbar.BarManager.Picture.{Turn, Bar}
use photonbar.Layout.{Sides, render_all_elements}
use photonbar.Layout.Events.{XEvent}
use photonbar.Bars.Rate.{timeouts-rate, timeouts-always}
use photonbar.Audio.{SinkInfo, new_audio}
use photonbar.Space.{new_space}
use photonbar.Weather.{Reply}
use photonbar.Tests.Sources.{whole}

abbrev libraries : Libraries ℕ
libraries = record { floats = whole; atoi = λ s. pos 0; volume_norm = 65536; parse = λ s. none }

-- Nothing that a module asks is there, but the time.
abbrev silent : ℕ → Answers ℕ
silent now = record {
  wall = now;
  steady = now * 1000000000;
  timer_clock = λ p. now * 1000000000;
  stopwatch_clock = λ p. now * 1000000000;
  tm = record { sec = 0; min = 0; hour = 0; mday = 1; mon = 0; year = 70; wday = 4 };
  workspaces = none;
  workspaces_again = none;
  i3_fd = negsuc 0;
  audio_ready = false;
  sinks = record { default_sink_name = none; sinks = [] };
  supply = record {
    energy_now = (none, none);
    energy_full = (none, none);
    power_now = (none, none);
    status = none;
  };
  dunst = record { is_paused = none; count_waiting = none };
  curl_handle = false;
  forecast = Reply.curl_error false;
  traffic = record { sent = 0; recv = 0 };
  latency = 0;
  statvfs = none;
  meminfo = none;
  stat = none;
  sensors = [];
}

abbrev seconds : List (Answers ℕ)
seconds = silent 40 ∷ silent 41 ∷ silent 75 ∷ []

abbrev space : BarModule ℕ
space = BarModule.space (new_space whole) true

abbrev no_sink : SinkInfo
no_sink = record {
  name = [];
  index = 0;
  volume = pos 0;
  is_muted = false;
  is_bluetooth = false;
  battery_level = negsuc 0;
}

abbrev audio : BarModule ℕ
audio = BarModule.audio (new_audio no_sink)

timeouts-rate_example :
    ((timeouts libraries seconds space).1 ≡ 0)
    ⊎ (0 + (timeouts libraries seconds space).1 * 30 ≤ 75)
unfolding photonbar.Bars.base photonbar.Bars.Rate.is_stamped new_space
timeouts-rate_example =
    timeouts-rate libraries seconds space 30 0 75 refl refl refl refl
      (omega arith, (omega arith, (omega arith, tt)))

timeouts-always_example : (timeouts libraries seconds audio).1 ≡ 3
unfolding photonbar.Bars.base photonbar.Bars.Rate.is_unstamped new_audio photonbar.Module.new_module
timeouts-always_example =
    timeouts-always libraries seconds audio 5 0 refl refl refl refl
      (omega arith, (omega arith, (omega arith, tt)))

-- All modules can be initialised: i3 and PulseAudio are there, and the forecast is empty.
abbrev connected : Libraries ℕ
connected = record libraries {
  parse = λ s. some (record {
    current = some (record { temperature = none; weathercode = none; is_day = none });
    hourly = none;
  });
}

abbrev told : ℕ → ℕ → Answers ℕ
told n k = record (silent (40 + k)) {
  i3_fd = pos 5;
  audio_ready = true;
  forecast = Reply.http false 200 [];
}

abbrev lay : Sides (ℕ × Action) → Sides (ℕ × Action)
lay s = render_all_elements 9 100 0 (record { drawn = 2; counted = 2 }) s

-- A press on the bar, a timeout, and a change of the workspaces with another press.
abbrev turns : List Turn
turns =
    record {
      selected = pos 1;
      workspace_changed = false;
      x_ready = true;
      now = pos 41;
      events = XEvent.press 9 1 3 ∷ [];
    }
    ∷ record {
      selected = pos 0;
      workspace_changed = false;
      x_ready = false;
      now = pos 42;
      events = [];
    }
    ∷ record {
      selected = pos 1;
      workspace_changed = true;
      x_ready = true;
      now = pos 42;
      events = XEvent.press 9 1 5 ∷ [];
    }
    ∷ []

abbrev Served : Type 0
Served = Bar (Seat ℕ) (ℕ × Action)

abbrev bar_of : Option Served → Served
bar_of none = record { modules = []; xcb_fd = negsuc 0; picture = record { left = []; right = [] } }
bar_of (some b) = b

abbrev top : Served
top =
    bar_of
      (serve_top connected lay turns (pos 3) (top_modules connected told (pos 5) none no_sink true))

abbrev bottom : Served
bottom = bar_of (
    serve_bottom connected lay turns (pos 4)
      (bottom_modules connected told (record { sent = 0; recv = 0 })))

serve-shows_example :
    (top.picture ≡ lay (sides 1 top.modules)) × (bottom.picture ≡ lay (sides 2 bottom.modules))
unfolding serve_top serve_bottom photonbar.BarManager.Run.start
    photonbar.BarManager.initialize_all_modules top_modules photonbar.BarManager.Run.construct
    photonbar.Bars.top_left photonbar.Bars.initialize photonbar.Bars.Serve.with_render
    photonbar.Workspace.initialize photonbar.Workspace.subscribe photonbar.Bars.top_right
    photonbar.Weather.initialize photonbar.Weather.fetch_weather_data photonbar.Weather.new_weather
    photonbar.Weather.parse_weather_json bottom_modules photonbar.Bars.bottom_left
    photonbar.Bars.bottom_right
serve-shows_example =
    serve-shows connected lay lay turns turns told told (pos 3) (pos 4) (pos 5) none no_sink true
      (record { sent = 0; recv = 0 }) {top = top} {bottom = bottom} refl refl

update-Marked_example :
    Marked (get_elements space) (get_elements (update libraries (silent 40) space))
unfolding photonbar.Bars.Dirty.is_fixed
update-Marked_example = update-Marked libraries (silent 40) space refl
