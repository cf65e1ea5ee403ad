-- ===== src/Battery/Alerts.antt =====
-- How often the battery (modules/battery.h) warns.
use photonbar.Common.{
  ◌≡◌, refl, arith, Bool, true, false, not, ◌&&◌, ◌||◌, List, [], ◌∷◌, ◌++◌, if◌then◌else◌, Bytes,
  Bool-cases, inl, inr, length,
}
use photonbar.Common.Floats.{Floats}
use photonbar.Battery.{
  Battery, Notice, below, above, is_charging, alert_title, alert_message, check_battery_alert,
}

module _ {W : Type 0} (f : Floats W) where
  -- A reading of the level and the status.
  abbrev pub reading : Battery W → W × Bytes → Battery W
  reading b (p, s) = record b { percentage = p; status = s }

  -- Readings one after another, and the notifications that are sent.
  unfoldable pub alerts : List (W × Bytes) → Battery W → List Notice
  alerts [] b = []
  alerts (r ∷ rs) b = let (c, sent) = check_battery_alert f (reading b r) in sent ++ alerts rs c

  -- No reading is above 25 or of a charging battery.
  abbrev pub StaysLow : List (W × Bytes) → Type 0
  StaysLow [] = Unit
  StaysLow ((p, s) ∷ rs) = (above f p 25 ≡ false) × (is_charging s ≡ false) × StaysLow rs

  -- Some reading is below 20.
  abbrev pub drops : List (W × Bytes) → Bool
  drops [] = false
  drops ((p, s) ∷ rs) = below f p 20 || drops rs

  check_sent :
      (b : Battery W)
      → above f b.percentage 25 ≡ false
      → is_charging b.status ≡ false
      → b.notification_sent ≡ true
      → check_battery_alert f b ≡ (b, [])
  unfolding check_battery_alert
  check_sent b middle off sent = elim (Bool-cases (below f b.percentage 20)) [
    | inl low ↦ rw (check_battery_alert, low, off, sent, middle) refl
    | inr high ↦ rw (check_battery_alert, high, off, middle) refl
  ]

  check_high :
      (b : Battery W)
      → above f b.percentage 25 ≡ false
      → is_charging b.status ≡ false
      → below f b.percentage 20 ≡ false
      → check_battery_alert f b ≡ (b, [])
  unfolding check_battery_alert
  check_high b middle off high = rw (check_battery_alert, high, off, middle) refl

  check_low :
      (b : Battery W)
      → is_charging b.status ≡ false
      → b.notification_sent ≡ false
      → below f b.percentage 20 ≡ true
      → (n : Notice) × (check_battery_alert f b ≡ (record b { notification_sent = true }, n ∷ []))
  unfolding check_battery_alert
  check_low b off unsent low = (
    record { title = alert_title; message = alert_message (f.to_int b.percentage) },
    rw (check_battery_alert, low, off, unsent) refl,
  )

  alerts_sent :
      (rs : List (W × Bytes)) (b : Battery W)
      → StaysLow rs
      → b.notification_sent ≡ true
      → alerts rs b ≡ []
  unfolding alerts
  alerts_sent [] b low sent = refl
  alerts_sent ((p, s) ∷ rs) b (middle, off, low) sent =
      let now = reading b (p, s) in
      rw (alerts, check_sent now middle off sent) (alerts_sent rs now low sent)

  -- While the battery neither charges nor rises above 25, it warns once if it drops below 20 and
  -- was not warned of before, and not at all otherwise.
  alerts_once :
      (rs : List (W × Bytes)) (b : Battery W)
      → StaysLow rs
      → length (alerts rs b) ≡ (if not b.notification_sent && drops rs then 1 else 0)
  unfolding alerts
  alerts_once [] b low = ground arith
  alerts_once ((p, s) ∷ rs) b (middle, off, low) =
      let now = reading b (p, s) in
      elim (Bool-cases (below f p 20)) [
        | inr high ↦ rw (alerts, check_high now middle off high, high) (alerts_once rs now low)
        | inl dropped ↦ elim (Bool-cases b.notification_sent) [
          | inl sent ↦
              rw (alerts, check_sent now middle off sent, alerts_sent rs now low sent, sent) refl
          | inr unsent ↦
              let (n, e) = check_low now off unsent dropped in
              let later = record now { notification_sent = true } in
              rw (alerts, e, alerts_sent rs later low refl, dropped, unsent) refl
        ]
      ]
