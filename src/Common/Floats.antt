-- ===== src/Common/Floats.antt =====
-- The `float` and `double` numbers of the modules: a type with the operations that they use. The
-- comparison is `<`; `decimal m k` is the literal m / 10 ^ k, `fixed k` the conversion `%.kf`, and
-- `to_int` the conversion to an integer.
use Prim.Native.Nat.{ℕ}
use mathlib.Core.Bool.{Bool}
use photonbar.Common.Int.{ℤ}
use photonbar.Common.Texts.{Bytes}

pub record Floats (W : Type 0) : Type 0 where
  pub of_int : ℤ → W
  pub decimal : ℕ → ℕ → W
  pub add : W → W → W
  pub sub : W → W → W
  pub mul : W → W → W
  pub div : W → W → W
  pub less : W → W → Bool
  pub to_int : W → ℤ
  pub fixed : ℕ → W → Bytes
