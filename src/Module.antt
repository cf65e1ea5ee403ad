-- ===== src/Module.antt =====
-- modules/module.h: what every module has, and when it is due for an update. `time_t` is an
-- integer, since the wall clock may be set back.
pub mod Due
use photonbar.Common.{Bool, true, false, ◌||◌, Bytes, if◌then◌else◌}
use photonbar.Common.Int.{ℤ, pos, ◌-ℤ◌, leb_ℤ}

pub record Module : Type 0 where
  pub name : Bytes
  pub auto_update : Bool
  pub seconds_per_update : ℤ
  pub last_update : ℤ
  pub render_set : Bool

unfoldable pub new_module : Bytes → Bool → ℤ → Module
new_module name auto_update seconds = record {
  name = name;
  auto_update = auto_update;
  seconds_per_update = seconds;
  last_update = pos 0;
  render_set = false;
}

-- What no update changes.
abbrev pub traits : Module → Bool × Bool
traits m = (m.auto_update, m.render_set)

unfoldable pub set_render_function : Module → Module
set_render_function m = record m { render_set = true }

unfoldable pub set_seconds_per_update : ℤ → Module → Module
set_seconds_per_update seconds m = record m { seconds_per_update = seconds }

unfoldable pub should_update : ℤ → Module → Bool
should_update now m =
    if m.auto_update then true else leb_ℤ m.seconds_per_update (now -ℤ m.last_update)

-- The virtual functions of a module whose state is `S`; `initialize` is `true` by default.
pub record Interface (S : Type 0) : Type 0 where
  pub base : S → Module
  pub update : S → S
  pub initialize : S → S × Bool

unfoldable pub check_and_update : {S : Type 0} → Interface S → ℤ → S → S × Bool
check_and_update i now s = if should_update now (i.base s) then (i.update s, true) else (s, false)
