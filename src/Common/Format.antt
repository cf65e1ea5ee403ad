-- ===== src/Common/Format.antt =====
-- The conversions of printf that the modules use on ints, the narrowing of a `long long` to an
-- `int`, and `snprintf` into a buffer that keeps its old bytes behind the terminator.
use photonbar.Common.Int.{ℤ, pos, negsuc}
use photonbar.Common.Lists.{length, take, drop}
use photonbar.Common.Texts.{Bytes, decimal, decimal2}
use photonbar.Common.Tests.{ltb, if◌then◌else◌, ◌==◌}
use Prim.Native.Nat.{ℕ, suc, ◌+◌, ◌-◌, ◌%◌, ◌<◌}
use mathlib.Core.List.{[], ◌∷◌, ◌++◌}
use mathlib.Core.Path.{◌≡◌}
use native.Mathlib.Omega.{arith}

abbrev pub int_mod : ℕ
int_mod = 4294967296

-- The int with a 32-bit pattern.
abbrev pub of_pattern : ℕ → ℤ
of_pattern m = if ltb m 2147483648 then pos m else negsuc (int_mod - m - 1)

unfoldable pub to_int : ℤ → ℤ
to_int (pos n) = of_pattern (n % int_mod)
to_int (negsuc n) = of_pattern ((int_mod - suc n % int_mod) % int_mod)

-- `%d`.
unfoldable pub format_d : ℤ → Bytes
format_d (pos n) = decimal n
format_d (negsuc n) = b'-' ∷ decimal (suc n)

-- `%02d`; a minus sign and one digit fill the width.
unfoldable pub format_02d : ℤ → Bytes
format_02d (pos n) = decimal2 n
format_02d (negsuc n) = b'-' ∷ decimal (suc n)

-- `snprintf(buffer, size + 1, …)`: at most `size` bytes of the text, a zero byte, and the old
-- bytes behind it.
unfoldable pub store : ℕ → Bytes → Bytes → Bytes
store size text buffer = let kept = take size text in kept ++ (0 ∷ drop (length kept + 1) buffer)

-- The string that starts at the front of the buffer.
unfoldable pub c_string : Bytes → Bytes
c_string [] = []
c_string (c ∷ cs) = if c == 0 then [] else c ∷ c_string cs

pub to_int_small : (n : ℕ) → n < 2147483648 → to_int (pos n) ≡ pos n
unfolding to_int
to_int_small n h = ground arith
