-- ===== src/BatteryIcon/Steps.antt =====
-- The icons of helper.h change in steps of ten.
use photonbar.Common.{ℕ, ◌/◌, ◌<◌, ◌≡◌, arith, Bool, leb, if◌then◌else◌}
use photonbar.BatteryIcon.{get_battery_icon}

-- The step of a level: full from 95 on, and else the tens.
abbrev pub step : ℕ → ℕ
step p = if leb 95 p then 10 else p / 10

-- Two levels below 256 in the same step have the same icon, whether the battery is charged or
-- not; the icons for 100 to 255 are those for 100.
get_battery_icon-step :
    (p q : ℕ) (charging : Bool)
    → p < 256
    → q < 256
    → step p ≡ step q
    → get_battery_icon p charging ≡ get_battery_icon q charging
unfolding get_battery_icon
get_battery_icon-step p q charging h k e = ground arith
