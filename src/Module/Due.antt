-- ===== src/Module/Due.antt =====
-- `shouldUpdate` and `checkAndUpdate` of modules/module.h.
use photonbar.Common.{true, false, ◌≡◌, arith}
use photonbar.Common.Int.{ℤ, ◌-ℤ◌, ◌+ℤ◌, ◌≤ℤ◌}
use photonbar.Module.{Module, should_update}

-- A module that does not update on every round is due exactly from its interval after its last
-- update on.
pub should_update_iff :
    (now : ℤ) (m : Module)
    → m.auto_update ≡ false
    → ((should_update now m ≡ true) → m.last_update +ℤ m.seconds_per_update ≤ℤ now)
      × (m.last_update +ℤ m.seconds_per_update ≤ℤ now → should_update now m ≡ true)
unfolding should_update ◌+ℤ◌ ◌-ℤ◌
should_update_iff now m h = ground arith
