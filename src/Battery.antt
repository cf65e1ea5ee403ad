-- ===== src/Battery.antt =====
-- modules/battery.h: the charge, the text and colours that show it, and the alert. What a file of
-- /sys holds is an argument: `none` for a file that cannot be opened, `some none` for one in which
-- `fscanf` finds nothing. NotifyManager is the notification that is handed to it.
pub mod Alerts
use photonbar.Common.{
  ℕ, Bool, true, false, not, ◌&&◌, ◌||◌, Option, none, some, List, [], ◌∷◌, ◌++◌, ◌==◌,
  if◌then◌else◌, Bytes, ascii, take,
}
use photonbar.Common.Int.{ℤ, pos, negsuc, ◌-ℤ◌, ltb_ℤ, leb_ℤ, div_ℤ, mod_ℤ, pos_part}
use photonbar.Common.Format.{store, format_d, format_02d, to_int}
use photonbar.Common.Floats.{Floats}
use photonbar.BarElement.{BarElement, new_element, set_color}
use photonbar.BatteryIcon.{get_battery_icon}
use photonbar.Palette.{default_color, red_color, orange_color, green_color}
use photonbar.Utf8.{encode_utf8}

-- What `NotifyManager::send` is given; its urgency is always critical here.
pub record Notice : Type 0 where
  pub title : Bytes
  pub message : Bytes

pub record Battery (W : Type 0) : Type 0 where
  pub icon : BarElement Unit
  pub text : BarElement Unit
  pub energy_now : ℤ
  pub energy_full : ℤ
  pub power_now : ℤ
  pub status : Bytes
  pub percentage : W
  pub notification_sent : Bool
  pub last_update : ℤ

-- What `update` reads: the two files of each quantity and the status.
pub record Files : Type 0 where
  pub energy_now : Option (Option ℤ) × Option (Option ℤ)
  pub energy_full : Option (Option ℤ) × Option (Option ℤ)
  pub power_now : Option (Option ℤ) × Option (Option ℤ)
  pub status : Option (Option Bytes)

abbrev pub or_zero : Option ℤ → ℤ
or_zero none = pos 0
or_zero (some n) = n

unfoldable pub read_long : Option (Option ℤ) × Option (Option ℤ) → ℤ
read_long (some content, second) = or_zero content
read_long (none, some content) = or_zero content
read_long (none, none) = pos 0

-- `%15s`, into a buffer that an absent file leaves alone.
unfoldable pub read_status : Option (Option Bytes) → Bytes → Bytes
read_status none old = old
read_status (some none) old = ascii "Unknown"
read_status (some (some word)) old = take 15 word

abbrev pub starts_with : ℕ → Bytes → Bool
starts_with c [] = false
starts_with c (d ∷ ds) = d == c

abbrev pub is_charging : Bytes → Bool
is_charging status = starts_with b'C' status

-- `snprintf` without a change of `contentLen`, and the dirty mark.
abbrev pub show : {A : Type 0} → Bytes → BarElement A → BarElement A
show t e = record e { content = store 254 t e.content; dirty_content = true }

abbrev pub alert_title : Bytes
alert_title =
    encode_utf8 0xf0083
    ++ (ascii " Bater"
        ++ (encode_utf8 0xed ++ (ascii "a Cr" ++ (encode_utf8 0xed ++ ascii "tica"))))

-- A message buffer of 128 bytes.
abbrev pub alert_message : ℤ → Bytes
alert_message p = take 127 (
    ascii "Nivel actual: <b>"
    ++ (format_d p ++ (ascii "%</b>" ++ (10 ∷ ascii "<b>Conecta el cargador de inmediato.</b>"))))

module _ {W : Type 0} (f : Floats W) where
  abbrev pub below : W → ℕ → Bool
  below p n = f.less p (f.of_int (pos n))

  abbrev pub above : W → ℕ → Bool
  above p n = f.less (f.of_int (pos n)) p

  unfoldable pub new_battery : Battery W
  new_battery = record {
    icon = new_element;
    text = new_element;
    energy_now = pos 0;
    energy_full = pos 0;
    power_now = pos 0;
    status = ascii "Unknown";
    percentage = f.of_int (pos 0);
    notification_sent = false;
    last_update = pos 0;
  }

  -- `(int)(timeFloat * 60)`.
  unfoldable pub minutes_left : Battery W → ℤ
  minutes_left b =
      let part = if is_charging b.status then b.energy_full -ℤ b.energy_now else b.energy_now in
      f.to_int (f.mul (f.div (f.of_int part) (f.of_int b.power_now)) (f.of_int (pos 60)))

  unfoldable pub battery_text : Battery W → Bytes
  battery_text b =
      let percent = f.fixed 1 b.percentage ++ ascii "%" in
      let mins = minutes_left b in
      let time = format_02d (div_ℤ mins 60) ++ (b':' ∷ format_02d (mod_ℤ mins 60)) in
      if ltb_ℤ (pos 0) b.power_now && (is_charging b.status || starts_with b'D' b.status)
      then percent ++ (32 ∷ time)
      else percent

  -- The level goes to `getBatteryIcon` as a uint8_t.
  unfoldable pub update_visuals : Battery W → Battery W
  update_visuals b =
      let charging = is_charging b.status in
      let icon_color =
        if charging
        then if not (below b.percentage 90)
          then green_color
          else if not (below b.percentage 20)
          then orange_color
          else red_color
        else default_color in
      let text_color = if below b.percentage 20 && not charging then red_color else default_color in
      let icon = get_battery_icon (pos_part (f.to_int b.percentage)) charging ++ (32 ∷ []) in
      record b {
        icon = set_color icon_color (show icon b.icon);
        text = set_color text_color (show (battery_text b) b.text);
      }

  unfoldable pub check_battery_alert : Battery W → Battery W × List Notice
  check_battery_alert b =
      let charging = is_charging b.status in
      if below b.percentage 20 && not charging && not b.notification_sent
      then (
        record b { notification_sent = true },
        record { title = alert_title; message = alert_message (f.to_int b.percentage) } ∷ [],
      )
      else if above b.percentage 25 || charging
      then (record b { notification_sent = false }, [])
      else (b, [])

  unfoldable pub read_battery : Files → Battery W → Battery W
  read_battery s b = record b {
    energy_now = read_long s.energy_now;
    energy_full = read_long s.energy_full;
    power_now = read_long s.power_now;
    status = read_status s.status b.status;
  }

  unfoldable pub percentage_of : ℤ → ℤ → W
  percentage_of now full = f.mul (f.div (f.of_int now) (f.of_int full)) (f.of_int (pos 100))

  unfoldable pub update : Files → ℤ → Battery W → Battery W × List Notice
  update s now b =
      let seen = read_battery s b in
      let level = percentage_of seen.energy_now seen.energy_full in
      let (checked, notices) =
        check_battery_alert (update_visuals (record seen { percentage = level })) in
      if ltb_ℤ (pos 0) seen.energy_full
      then (record checked { last_update = now }, notices)
      else (record seen { last_update = now }, [])
