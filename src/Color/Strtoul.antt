-- ===== src/Color/Strtoul.antt =====
-- `strtoul(s, &end, 16)` of the C library, as color.h uses it: spaces, a sign, `0x`, digits. The
-- result wraps under a minus sign and sets ERANGE beyond an unsigned long.
use photonbar.Common.{
  ℕ, ◌+◌, ◌-◌, ◌*◌, ◌%◌, Bool, true, false, ◌&&◌, ◌||◌, Option, none, some, [], ◌∷◌, ◌==◌, leb,
  if◌then◌else◌, Bytes, length,
}

-- The number, the characters used up to `end`, and whether `errno` is set.
pub record Scan : Type 0 where
  pub number : ℕ
  pub consumed : ℕ
  pub overflow : Bool

abbrev pub ulong_mod : ℕ
ulong_mod = 18446744073709551616

unfoldable pub is_space : ℕ → Bool
is_space c = c == 32 || (leb 9 c && leb c 13)

unfoldable pub hex_value : ℕ → Option ℕ
hex_value c =
    if leb b'0' c && leb c b'9'
    then some (c - b'0')
    else if leb b'a' c && leb c b'f'
    then some (c - 87)
    else if leb b'A' c && leb c b'F'
    then some (c - 55)
    else none

unfoldable pub skip_spaces : Bytes → Bytes
unfolding is_space
skip_spaces [] = []
skip_spaces (c ∷ cs) = if is_space c then skip_spaces cs else c ∷ cs

-- `0x` counts only before a digit.
unfoldable pub skip_prefix : Bytes → Bytes
unfolding hex_value
skip_prefix (z ∷ x ∷ d ∷ cs) = elim (hex_value d) [
  | none ↦ z ∷ x ∷ d ∷ cs
  | some v ↦ if z == b'0' && (x == b'x' || x == b'X') then d ∷ cs else z ∷ x ∷ d ∷ cs
]
skip_prefix s = s

-- The value of the digits at the front, and what follows them.
unfoldable pub scan_hex : ℕ → Bytes → ℕ × Bytes
unfolding hex_value
scan_hex acc [] = (acc, [])
scan_hex acc (c ∷ cs) = elim (hex_value c) [
  | none ↦ (acc, c ∷ cs)
  | some d ↦ scan_hex (acc * 16 + d) cs
]

-- The sign, and what follows it.
unfoldable pub skip_sign : Bytes → Bool × Bytes
skip_sign [] = (false, [])
skip_sign (c ∷ cs) =
    if c == b'-' then (true, cs) else if c == b'+' then (false, cs) else (false, c ∷ cs)

unfoldable pub strtoul16 : Bytes → Scan
strtoul16 s =
    let (negative, signed) = skip_sign (skip_spaces s) in
    let start = skip_prefix signed in
    let (n, rest) = scan_hex 0 start in
    if length rest == length start
    then record { number = 0; consumed = 0; overflow = false }
    else if leb ulong_mod n
    then record { number = ulong_mod - 1; consumed = length s - length rest; overflow = true }
    else record {
      number = if negative then (ulong_mod - n) % ulong_mod else n;
      consumed = length s - length rest;
      overflow = false;
    }
