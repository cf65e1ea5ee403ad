-- ===== src/Tests/Sources.antt =====
-- The geometry, the start-up and the modules that read files and replies, on small inputs.
use photonbar.Common.{
  ℕ, ◌+◌, ◌-◌, ◌*◌, ◌/◌, ◌^◌, ◌≡◌, refl, true, false, Option, none, some, List, [], ◌∷◌, ◌++◌,
  arith, ltb, Bytes, ascii, decimal,
}
use photonbar.Common.Int.{pos, pos_part}
use photonbar.Common.Floats.{Floats}
use photonbar.Geometry.{parse_geometry_string}
use photonbar.Geometry.Text.{geometry_text, parse_geometry_string-geometry_text}
use photonbar.Module.{Interface, Module, new_module}
use photonbar.BarManager.{initialize_all_modules}
use photonbar.Startup.{State, Place, Thread, Step, Steps, start_state}
use photonbar.Startup.Progress.{Held, Steps-stuck}
use photonbar.Weather.{Weather, Reply, Forecast, new_weather}
use photonbar.Ping.{Traffic, get_network_io}
use photonbar.Ping.Text.{Line}
use photonbar.Ping.Sums.{IsLine, lines_text, get_network_io-add_lines}

-- Numbers without a sign or a fraction.
abbrev pub whole : Floats ℕ
whole = record {
  of_int = pos_part;
  decimal = λ m k. m / 10 ^ k;
  add = λ a b. a + b;
  sub = λ a b. a - b;
  mul = λ a b. a * b;
  div = λ a b. a / b;
  less = ltb;
  to_int = pos;
  fixed = λ k n. decimal n;
}

parse_geometry_string-geometry_text_example :
    parse_geometry_string (some (geometry_text 1920 24 0 5)) (pos 1 ∷ pos 1 ∷ pos 1 ∷ pos 1 ∷ [])
    ≡ some (true, pos 1920 ∷ pos 24 ∷ pos 0 ∷ pos 5 ∷ [])
parse_geometry_string-geometry_text_example =
    parse_geometry_string-geometry_text 1920 24 0 5 (pos 1) (pos 1) (pos 1) (pos 1) (omega arith)
      (omega arith) (omega arith) (omega arith)

-- A module that cannot be initialised, as the weather without a network, and one that can.
abbrev offline : Interface Module
offline = record { base = λ m. m; update = λ m. m; initialize = λ m. (m, false) }

abbrev online : Interface Module
online = record { base = λ m. m; update = λ m. m; initialize = λ m. (m, true) }

abbrev weather_module : Module
weather_module = new_module (ascii "weather") false (pos 600)

Steps-stuck_example : Held (State.state Place.waiting Thread.ended Thread.idle false)
unfolding initialize_all_modules
Steps-stuck_example =
    Steps-stuck offline (weather_module ∷ []) []
      (State.state Place.waiting Thread.ended Thread.idle false) refl
      (Steps.then_step (Steps.then_step (Steps.here start_state) (Step.spawn_top Thread.idle false))
        (Step.initialize_top Place.waiting Thread.idle false))

abbrev no_forecast : Bytes → Option (Forecast ℕ)
no_forecast body = none

abbrev known : Weather ℕ
known = record (new_weather whole true) {
  temperature = 21;
  weather_code = pos 3;
  last_api_call = pos 50;
}

abbrev server_error : Reply
server_error = Reply.http true 500 []

-- Three readings of a battery that runs down.
abbrev running_down : List (ℕ × Bytes)
running_down =
    (22, ascii "Discharging") ∷ (19, ascii "Discharging") ∷ (18, ascii "Discharging") ∷ []

abbrev nothing : List ℕ
nothing = 0 ∷ 0 ∷ 0 ∷ 0 ∷ 0 ∷ 0 ∷ 0 ∷ []

abbrev loopback : Line
loopback = record {
  indent = 4;
  name = ascii "lo";
  recv = 1234;
  between = nothing;
  sent = 1234;
  tail = ascii " 0 0";
}

abbrev wireless : Line
wireless = record loopback { indent = 0; name = ascii "wlan0"; recv = 700; sent = 80 }

abbrev zero_traffic : Traffic
zero_traffic = record { sent = 0; recv = 0 }

loopback-IsLine : IsLine loopback
loopback-IsLine = record {
  name_colon = omega arith;
  name_blank = omega arith;
  name_newline = omega arith;
  seven = refl;
  recv_small = omega arith;
  between_small = omega arith;
  sent_small = omega arith;
  tail_ends = refl;
  tail_newline = omega arith;
}

wireless-IsLine : IsLine wireless
wireless-IsLine = record {
  name_colon = omega arith;
  name_blank = omega arith;
  name_newline = omega arith;
  seven = refl;
  recv_small = omega arith;
  between_small = omega arith;
  sent_small = omega arith;
  tail_ends = refl;
  tail_newline = omega arith;
}

get_network_io-add_lines_example :
    get_network_io
      (some
        (ascii "Inter-" ++ (10 ∷ (ascii "face" ++ (10 ∷ lines_text (loopback ∷ wireless ∷ []))))))
      zero_traffic
    ≡ some (record { sent = 80; recv = 700 })
get_network_io-add_lines_example =
    get_network_io-add_lines (ascii "Inter-") (ascii "face") (loopback ∷ wireless ∷ []) zero_traffic
      (omega arith) (omega arith) (loopback-IsLine, (wireless-IsLine, tt)) (omega arith)
