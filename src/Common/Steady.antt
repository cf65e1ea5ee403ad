-- ===== src/Common/Steady.antt =====
-- Differences of the steady clock's time points, which are numbers of nanoseconds, as the modules
-- take them: in whole milliseconds, rounded towards zero.
use photonbar.Common.Int.{ℤ, pos, ◌+ℤ◌, ◌-ℤ◌, ◌≤ℤ◌, div_ℤ}
use Prim.Native.Nat.{ℕ, ◌-◌, ◌/◌, ◌≤◌}
use mathlib.Core.Path.{◌≡◌}
use native.Mathlib.Omega.{arith}

-- `duration_cast<milliseconds>(b - a).count()`.
unfoldable pub ms_between : ℕ → ℕ → ℤ
ms_between a b = div_ℤ (pos b -ℤ pos a) 1000000

pub ms_between_le : (a b : ℕ) → a ≤ b → ms_between a b ≡ pos ((b - a) / 1000000)
unfolding ms_between ◌-ℤ◌ div_ℤ
ms_between_le a b h = ground arith

-- Two intervals one after the other, each rounded down, against the whole.
pub ms_between_split :
    (a b c : ℕ)
    → a ≤ b
    → b ≤ c
    → (ms_between a b +ℤ ms_between b c ≤ℤ ms_between a c)
      × (ms_between a c ≤ℤ ms_between a b +ℤ ms_between b c +ℤ pos 1)
unfolding ◌+ℤ◌
ms_between_split a b c h k =
    rw (ms_between_le a b h, ms_between_le b c k, ms_between_le a c (omega arith)) (ground arith)
