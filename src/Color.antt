-- ===== src/Color.antt =====
-- color.h: the colour of an element, and `Color::parse_color`. A colour is its four bytes; the
-- union's other member `v` is the little-endian number that they make. Masks and shifts by
-- constants are written with `/`, `%` and `*`.
pub mod Strtoul
pub mod Parse
pub mod Print
use photonbar.Color.Strtoul.{strtoul16}
use photonbar.Common.{
  ℕ, ◌+◌, ◌*◌, ◌/◌, ◌%◌, ◌^◌, Bool, Option, none, some, [], ◌∷◌, ◌==◌, if◌then◌else◌, Bytes,
}

pub record Color : Type 0 where
  pub b : ℕ
  pub g : ℕ
  pub r : ℕ
  pub a : ℕ

abbrev pub u8 : ℕ → ℕ
u8 n = n % 256

abbrev pub u32 : ℕ → ℕ
u32 n = n % 4294967296

-- The member `v`.
unfoldable pub value : Color → ℕ
value c = c.b + c.g * 256 + c.r * 65536 + c.a * 16777216

-- `Color(uint32_t val)`.
unfoldable pub of_value : ℕ → Color
of_value v = record { b = v % 256; g = v / 256 % 256; r = v / 65536 % 256; a = v / 16777216 % 256 }

-- `operator==`, on the whole numbers.
unfoldable pub same_color : Color → Color → Bool
unfolding value
same_color x y = value x == value y

-- `#rgb` to `#rrggbb`: each of the three low nibbles is written twice.
unfoldable pub expand_rgb : ℕ → ℕ
expand_rgb v = v / 256 % 16 * 256 * 4352 + v / 16 % 16 * 16 * 272 + v % 16 * 17

-- The switch on the number of characters read; `none` is the default case. Cases 3 and 6 set
-- the alpha, and so does the line behind the switch.
unfoldable pub by_length : ℕ → ℕ → Option Color
unfolding expand_rgb of_value
by_length len v =
    let opaque = λ (c : Color). record c { a = 255 } in
    if len == 3
    then some (opaque (of_value (expand_rgb v)))
    else if len == 6
    then some (opaque (of_value v))
    else if len == 7
    then some (of_value v)
    else if len == 8
    then some (of_value v)
    else none

-- Force opacity and multiply the alpha in; a zero alpha gives the zero colour.
unfoldable pub premultiply : Color → Color
unfolding of_value
premultiply c =
    let a : ℕ = 255 in
    if a == 0
    then of_value 0
    else record { b = u8 (c.b * a / 255); g = u8 (c.g * a / 255); r = u8 (c.r * a / 255); a = u8 a }

-- The result and, where it is written, the distance from `str` to `*end`.
pub record Parsed : Type 0 where
  pub color : Color
  pub end : Option ℕ

parse_hex : Bytes → Color → Parsed
parse_hex digits def =
    let scan = strtoul16 digits in
    let end = some (scan.consumed + 1) in
    if scan.overflow
    then record { color = def; end = end }
    else elim (by_length scan.consumed (u32 scan.number)) [
      | none ↦ record { color = def; end = end }
      | some c ↦ record { color = premultiply c; end = end }
    ]

-- The string has no terminator here; at its end the code reads a zero byte.
unfoldable pub parse_color : Option Bytes → Color → Parsed
unfolding parse_hex premultiply by_length
parse_color none def = record { color = def; end = none }
parse_color (some []) def = record { color = def; end = some 0 }
parse_color (some (c ∷ digits)) def =
    if c == b'-'
    then record { color = def; end = some 1 }
    else if c == b'#'
    then parse_hex digits def
    else record { color = def; end = some 0 }
