-- ===== src/BatteryIcon.antt =====
-- helper.h: the icon of a battery level, a `uint8_t`.
pub mod Steps
use photonbar.Common.{ℕ, ◌%◌, Bool, leb, if◌then◌else◌, Bytes}
use photonbar.Utf8.{encode_utf8}

abbrev pub charging_icon : ℕ → Bytes
charging_icon p =
    if leb 95 p
    then encode_utf8 0xf0085
    else if leb 90 p
    then encode_utf8 0xf008b
    else if leb 80 p
    then encode_utf8 0xf008a
    else if leb 70 p
    then encode_utf8 0xf089e
    else if leb 60 p
    then encode_utf8 0xf0089
    else if leb 50 p
    then encode_utf8 0xf089d
    else if leb 40 p
    then encode_utf8 0xf0088
    else if leb 30 p
    then encode_utf8 0xf0087
    else if leb 20 p
    then encode_utf8 0xf0086
    else if leb 10 p
    then encode_utf8 0xf089c
    else encode_utf8 0xf089f

abbrev pub discharging_icon : ℕ → Bytes
discharging_icon p =
    if leb 95 p
    then encode_utf8 0xf0079
    else if leb 90 p
    then encode_utf8 0xf0082
    else if leb 80 p
    then encode_utf8 0xf0081
    else if leb 70 p
    then encode_utf8 0xf0080
    else if leb 60 p
    then encode_utf8 0xf007f
    else if leb 50 p
    then encode_utf8 0xf007e
    else if leb 40 p
    then encode_utf8 0xf007d
    else if leb 30 p
    then encode_utf8 0xf007c
    else if leb 20 p
    then encode_utf8 0xf007b
    else if leb 10 p
    then encode_utf8 0xf007a
    else encode_utf8 0xf008e

unfoldable pub get_battery_icon : ℕ → Bool → Bytes
get_battery_icon percentage charging =
    let p = percentage % 256 in if charging then charging_icon p else discharging_icon p
