-- ===== src/Weather/Update.antt =====
-- What an update of the weather (modules/weather.h) shows, for the replies that it can get.
use photonbar.Common.{
  ◌≡◌, ◌≢◌, refl, Bool, true, false, ◌||◌, Option, none, some, ◌==◌, ltb, if◌then◌else◌, Bytes,
  Bool-cases, inl, inr, ◌⊎◌, ==_ne,
}
use photonbar.Common.Int.{ℤ}
use photonbar.Common.Format.{store}
use photonbar.Common.Floats.{Floats}
use photonbar.BarElement.{set_text}
use photonbar.Weather.{
  Current, Hourly, Forecast, Reply, Weather, parse_weather_json, fetch_weather_data, weather_text,
  generate_buffer, update, read_current, read_hourly, or_keep,
}

module _ {W : Type 0} (f : Floats W) (parse : Bytes → Option (Forecast W)) where
  -- The values that the text shows, and the time of the last success.
  abbrev pub SameData : Weather W → Weather W → Type 0
  SameData u w =
      (u.temperature ≡ w.temperature)
      × (u.feels_like ≡ w.feels_like)
      × (u.humidity ≡ w.humidity)
      × (u.wind_speed ≡ w.wind_speed)
      × (u.weather_code ≡ w.weather_code)
      × (u.is_night ≡ w.is_night)
      × (u.show_details ≡ w.show_details)
      × (u.element ≡ w.element)
      × (u.last_api_call ≡ w.last_api_call)

  -- curl fails, or the code is neither 200 nor 304, or the body has no forecast.
  abbrev pub Fails : Reply → Type 0
  Fails (Reply.curl_error noted) = Unit
  Fails (Reply.http noted code body) = (code ≢ 304) × ((code ≢ 200) ⊎ (parse body ≡ none))

  parse_empty :
      (body : Bytes) (w : Weather W)
      → parse body ≡ none
      → parse_weather_json f parse body w ≡ (w, false)
  unfolding parse_weather_json
  parse_empty body w e = rw (parse_weather_json, e) refl

  parse_full :
      (body : Bytes) (w : Weather W) (c : Current W) (h : Option (Hourly W))
      → parse body ≡ some (record { current = some c; hourly = h })
      → parse_weather_json f parse body w ≡ (read_hourly f h (read_current f c w), true)
  unfolding parse_weather_json
  parse_full body w c h e = rw (parse_weather_json, e) refl

  hourly_keeps :
      (h : Option (Hourly W)) (w : Weather W) → (read_hourly f h w).temperature ≡ w.temperature
  unfolding read_hourly
  hourly_keeps none w = refl
  hourly_keeps (some h) w = elim (Bool-cases (ltb 0 h.count)) [
    | inl e ↦ rw e refl
    | inr e ↦ rw e refl
  ]

  fetch_failed :
      (reply : Reply) (now : ℤ) (w : Weather W)
      → Fails reply
      → ((fetch_weather_data f parse reply now w).1 ≡ false)
        × SameData (fetch_weather_data f parse reply now w).0 w
  unfolding fetch_weather_data
  fetch_failed (Reply.curl_error noted) now w h = elim (Bool-cases w.has_handle) [
    | inl e ↦ rw e (refl, (refl, refl, refl, refl, refl, refl, refl, refl, refl))
    | inr e ↦ rw e (refl, (refl, refl, refl, refl, refl, refl, refl, refl, refl))
  ]
  fetch_failed (Reply.http noted code body) now w (changed, inl other) =
      elim (Bool-cases w.has_handle) [
        | inl e ↦
            rw (e, ==_ne code 200 other, ==_ne code 304 changed)
              (refl, (refl, refl, refl, refl, refl, refl, refl, refl, refl))
        | inr e ↦ rw e (refl, (refl, refl, refl, refl, refl, refl, refl, refl, refl))
      ]
  fetch_failed (Reply.http noted code body) now w (changed, inr empty) =
      let seen = record w { last_modified = if noted then now else w.last_modified } in
      elim (Bool-cases w.has_handle) [
        | inr e ↦ rw e (refl, (refl, refl, refl, refl, refl, refl, refl, refl, refl))
        | inl e ↦ elim (Bool-cases (code == 200)) [
          | inl ok ↦
              rw (parse_empty body seen empty, e, ok)
                (refl, (refl, refl, refl, refl, refl, refl, refl, refl, refl))
          | inr bad ↦
              rw (e, bad, ==_ne code 304 changed)
                (refl, (refl, refl, refl, refl, refl, refl, refl, refl, refl))
        ]
      ]

  -- An update whose reply is a failure keeps the data and the time of the last success, and shows
  -- the data once more.
  update_failed :
      (handle : Bool) (reply : Reply) (now : ℤ) (w : Weather W)
      → Fails reply
      → ((update f parse handle reply now w).temperature ≡ w.temperature)
        × ((update f parse handle reply now w).weather_code ≡ w.weather_code)
        × ((update f parse handle reply now w).last_api_call ≡ w.last_api_call)
        × ((update f parse handle reply now w).element.content
            ≡ store 254 (weather_text f parse w) w.element.content)
  unfolding update generate_buffer set_text weather_text
  update_failed handle reply now w h =
      let ready = record w { has_handle = w.has_handle || handle } in
      let (failed, (temperature, feels, humidity, wind, code, night, details, element, last)) =
        fetch_failed reply now ready h in
      rw (failed, temperature, code, last, night, details, feels, humidity, wind, element)
        (refl, refl, refl, refl)

  fetch_fresh :
      (noted : Bool) (body : Bytes) (now : ℤ) (w : Weather W) (c : Current W)
      (h : Option (Hourly W))
      → w.has_handle ≡ true
      → parse body ≡ some (record { current = some c; hourly = h })
      → ((fetch_weather_data f parse (Reply.http noted 200 body) now w).1 ≡ true)
        × ((fetch_weather_data f parse (Reply.http noted 200 body) now w).0.temperature
            ≡ or_keep c.temperature w.temperature)
        × ((fetch_weather_data f parse (Reply.http noted 200 body) now w).0.last_modified ≡ now)
  unfolding fetch_weather_data read_current
  fetch_fresh noted body now w c h handle parsed =
      let seen = record w { last_modified = if noted then now else w.last_modified } in
      rw (parse_full body seen c h parsed, handle) (refl, hourly_keeps h _, refl)

  -- A forecast that comes in with code 200 is what is shown, and the time is noted.
  update_fresh :
      (noted : Bool) (body : Bytes) (now : ℤ) (w : Weather W) (current : Current W)
      (hourly : Option (Hourly W))
      → w.has_handle ≡ true
      → parse body ≡ some (record { current = some current; hourly = hourly })
      → ((update f parse true (Reply.http noted 200 body) now w).temperature
          ≡ or_keep current.temperature w.temperature)
        × ((update f parse true (Reply.http noted 200 body) now w).last_api_call ≡ now)
        × ((update f parse true (Reply.http noted 200 body) now w).last_modified ≡ now)
  unfolding update generate_buffer
  update_fresh noted body now w current hourly handle parsed =
      let ready = record w { has_handle = w.has_handle || true } in
      let fetched = fetch_fresh noted body now ready current hourly (rw handle refl) parsed in
      rw (fetched.0) (fetched.1, refl, fetched.2)
