-- ===== src/Palette.antt =====
-- The colours that the modules ask `Color::parse_color` for.
use photonbar.Common.{ℕ, some, Bytes, ascii}
use photonbar.Color.{Color, parse_color}

abbrev pub rgb : ℕ → ℕ → ℕ → Color
rgb b g r = record { b = b; g = g; r = r; a = 255 }

abbrev pub color_of : Bytes → Color → Color
color_of s def = (parse_color (some s) def).color

-- `Color(224, 170, 255, 255)` gives b, g, r in this order.
unfoldable pub default_color : Color
default_color = color_of (ascii "#E0AAFF") (rgb 224 170 255)

unfoldable pub red_color : Color
red_color = color_of (ascii "#FF0000") (rgb 255 0 0)

unfoldable pub orange_color : Color
orange_color = color_of (ascii "#FFA500") (rgb 255 165 0)

unfoldable pub light_green_color : Color
light_green_color = color_of (ascii "#90EE90") (rgb 144 238 144)

unfoldable pub green_color : Color
green_color = color_of (ascii "#00FF00") (rgb 0 255 0)

unfoldable pub muted_color : Color
muted_color = color_of (ascii "#FF6B6B") (rgb 255 107 107)

unfoldable pub cold_color : Color
cold_color = color_of (ascii "#6BB6FF") (rgb 107 182 255)
