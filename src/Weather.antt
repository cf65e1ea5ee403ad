-- ===== src/Weather.antt =====
-- modules/weather.h: the forecast that is fetched, and the text and colour that show it. What curl
-- and json-c answer is an argument: whether a handle can be had, the reply, and `parse`, which is
-- what the code reads of the JSON text by json-c.
pub mod Update
use photonbar.Common.{
  ℕ, ◌+◌, Bool, true, false, not, ◌&&◌, ◌||◌, Option, none, some, List, [], ◌∷◌, ◌++◌, ltb, ◌==◌,
  if◌then◌else◌, Bytes, ascii,
}
use photonbar.Common.Int.{ℤ, pos, eqb_ℤ}
use photonbar.Common.Format.{format_d}
use photonbar.Common.Floats.{Floats}
use photonbar.BarElement.{BarElement, EventType, new_element, set_event, set_text, set_color}
use photonbar.Palette.{default_color, muted_color, cold_color}
use photonbar.Utf8.{encode_utf8}

pub data Action : Type 0 where
  toggle_details : Action

-- The member "current_weather": each entry where it is there.
pub record Current (W : Type 0) : Type 0 where
  pub temperature : Option W
  pub weathercode : Option ℤ
  pub is_day : Option Bool

-- The member "hourly" where all four arrays are in it: the length of the first, and the first
-- entries of the others.
pub record Hourly (W : Type 0) : Type 0 where
  pub count : ℕ
  pub feels : W
  pub humidity : ℤ
  pub wind : W

pub record Forecast (W : Type 0) : Type 0 where
  pub current : Option (Current W)
  pub hourly : Option (Hourly W)

-- The reply: whether a header line that starts with "Last-Modified:" came in, the code, the body.
pub data Reply : Type 0 where
  curl_error : (last_modified : Bool) → Reply
  http : (last_modified : Bool) (code : ℕ) (body : Bytes) → Reply

pub record Weather (W : Type 0) : Type 0 where
  pub element : BarElement Action
  pub last_api_call : ℤ
  pub temperature : W
  pub feels_like : W
  pub humidity : ℤ
  pub wind_speed : W
  pub weather_code : ℤ
  pub is_night : Bool
  pub show_details : Bool
  pub has_handle : Bool
  pub last_modified : ℤ
  pub last_update : ℤ
  pub renders : ℕ

abbrev pub either : Bool → ℕ → ℕ → Bytes
either night a b = if night then encode_utf8 a else encode_utf8 b

abbrev pub is_code : ℤ → ℕ → Bool
is_code c n = eqb_ℤ c (pos n)

unfoldable pub get_weather_description : ℤ → Bool → Bytes
get_weather_description c night =
    if is_code c 0
    then either night 0xf0594 0xf0599
    else if is_code c 1 || is_code c 2 || is_code c 3
    then either night 0xf0f31 0xf0595
    else if is_code c 45 || is_code c 48
    then encode_utf8 0xf0591
    else if is_code c 51 || is_code c 53 || is_code c 55
    then encode_utf8 0xf0f33
    else if is_code c 56 || is_code c 57
    then encode_utf8 0xf0597
    else if is_code c 61 || is_code c 63 || is_code c 65 || is_code c 66 || is_code c 67
    then encode_utf8 0xf0596
    else if is_code c 71 || is_code c 73 || is_code c 75
    then encode_utf8 0xf0f36
    else if is_code c 77
    then encode_utf8 0xf0592
    else if is_code c 80 || is_code c 81 || is_code c 82
    then encode_utf8 0xf067e
    else if is_code c 85 || is_code c 86
    then encode_utf8 0xf0598
    else encode_utf8 0xf2c7

abbrev pub or_keep {ℓ} : {A : Type ℓ} → Option A → A → A
or_keep none a = a
or_keep (some b) a = b

abbrev pub degrees : Bytes
degrees = encode_utf8 0xb0 ++ ascii "C"

module _ {W : Type 0} (f : Floats W) where
  -- The constructor, where curl gives a handle or not.
  unfoldable pub new_weather : Bool → Weather W
  new_weather handle = record {
    element =
        set_color default_color (set_event EventType.click_left Action.toggle_details new_element);
    last_api_call = pos 0;
    temperature = f.of_int (pos 0);
    feels_like = f.of_int (pos 0);
    humidity = pos 0;
    wind_speed = f.of_int (pos 0);
    weather_code = pos 0;
    is_night = false;
    show_details = false;
    has_handle = handle;
    last_modified = pos 0;
    last_update = pos 0;
    renders = 0;
  }

  unfoldable pub read_hourly : Option (Hourly W) → Weather W → Weather W
  read_hourly none w = w
  read_hourly (some h) w =
      if ltb 0 h.count
      then record w { feels_like = h.feels; humidity = h.humidity; wind_speed = h.wind }
      else w

  unfoldable pub read_current : Current W → Weather W → Weather W
  read_current c w = record w {
    temperature = or_keep c.temperature w.temperature;
    weather_code = or_keep c.weathercode w.weather_code;
    is_night = elim c.is_day [ none ↦ w.is_night | some day ↦ not day ];
  }

  module _ (parse : Bytes → Option (Forecast W)) where
    unfoldable pub parse_weather_json : Bytes → Weather W → Weather W × Bool
    parse_weather_json body w = elim (parse body) [
      | none ↦ (w, false)
      | some root ↦ elim root.current [
        | none ↦ (w, false)
        | some c ↦ (read_hourly root.hourly (read_current c w), true)
      ]
    ]

    -- `HeaderCallback` runs while the reply comes in.
    unfoldable pub fetch_weather_data : Reply → ℤ → Weather W → Weather W × Bool
    fetch_weather_data (Reply.curl_error noted) now w =
        let seen = record w { last_modified = if noted then now else w.last_modified } in
        if w.has_handle then (seen, false) else (w, false)
    fetch_weather_data (Reply.http noted code body) now w =
        let seen = record w { last_modified = if noted then now else w.last_modified } in
        let (fresh, ok) = parse_weather_json body seen in
        if not w.has_handle
        then (w, false)
        else if code == 200
        then (record fresh { last_modified = now }, ok)
        else if code == 304
        then (seen, true)
        else (seen, false)

    unfoldable pub weather_text : Weather W → Bytes
    weather_text w =
        let main =
          get_weather_description w.weather_code w.is_night
          ++ (32 ∷ (f.fixed 1 w.temperature ++ degrees)) in
        if w.show_details
        then main
          ++ (ascii " | ST: "
              ++ (f.fixed 1 w.feels_like
                  ++ (degrees
                      ++ (ascii " | H: "
                          ++ (format_d w.humidity
                              ++ (ascii "% | V: " ++ (f.fixed 1 w.wind_speed ++ ascii "km/h")))))))
        else main

    unfoldable pub generate_buffer : Weather W → Weather W
    generate_buffer w =
        let color =
          if f.less (f.of_int (pos 30)) w.temperature
          then muted_color
          else if f.less w.temperature (f.of_int (pos 5))
          then cold_color
          else default_color in
        record w { element = set_color color (set_text (weather_text w) w.element) }

    -- `handle` says whether a missing handle can be had now.
    unfoldable pub update : Bool → Reply → ℤ → Weather W → Weather W
    update handle reply now w =
        let ready = record w { has_handle = w.has_handle || handle } in
        let (fetched, ok) = fetch_weather_data reply now ready in
        let noted = record fetched { last_api_call = if ok then now else fetched.last_api_call } in
        record (generate_buffer noted) { last_update = now }

    unfoldable pub initialize : Reply → ℤ → Weather W → Weather W × Bool
    initialize reply now w = fetch_weather_data reply now w

    -- The left click; the drawing goes through `renderFunction` where it is set.
    unfoldable pub click : Bool → Bool → Reply → ℤ → Weather W → Weather W
    click render_set handle reply now w =
        let next = update handle reply now (record w { show_details = not w.show_details }) in
        record next { renders = if render_set then next.renders + 1 else next.renders }
