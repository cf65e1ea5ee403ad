-- ===== src/Geometry.antt =====
-- bar.h, the geometry of a bar: `parseGeometryString`, the order of the screens `rectSortCb`, the
-- struts of `setEwmhAtoms`, the fallback monitor of `init`, and `strip_path`.
pub mod Parse
pub mod Text
use photonbar.Common.{
  ℕ, zero, suc, ◌+◌, ◌-◌, ◌*◌, ◌%◌, Bool, true, false, ◌&&◌, ◌||◌, Option, none, some, List, [],
  ◌∷◌, ◌++◌, leb, ltb, ◌==◌, if◌then◌else◌, Bytes, ascii, set, take, length,
}
use photonbar.Common.Int.{ℤ, pos, negsuc, ◌+ℤ◌, ◌-ℤ◌, ltb_ℤ, leb_ℤ}
use photonbar.Common.Format.{to_int}
use photonbar.Common.Digits.{is_digit, scan_digits}

abbrev pub ulong_mod : ℕ
ulong_mod = 18446744073709551616

-- One turn of the loop: it returns with the fields, or goes on behind some characters with the
-- index and the fields.
pub data Turn : Type 0 where
  done : Bool → List ℤ → Turn
  go : Bytes → ℕ → List ℤ → Turn

-- `strtoul`, from a digit on; a number beyond an unsigned long sets `errno`.
unfoldable pub number_field : Bytes → ℕ → List ℤ → Turn
number_field s i tmp =
    let (n, rest) = scan_digits 0 s in
    if leb ulong_mod n then Turn.done false tmp else Turn.go rest i (set tmp i (to_int (pos n)))

unfoldable pub geometry_turn : Bytes → ℕ → List ℤ → Turn
geometry_turn [] i tmp = Turn.done true tmp
geometry_turn (c ∷ cs) i tmp =
    if leb 4 i
    then Turn.done false tmp
    else if c == b'x'
    then if ltb 0 i then Turn.done true tmp else Turn.go cs (i + 1) tmp
    else if c == b'+'
    then Turn.go cs (if ltb i 1 then 2 else i + 1) tmp
    else if is_digit c
    then number_field (c ∷ cs) i tmp
    else Turn.done false tmp

-- The loop, for at most `fuel` turns; `none` is a loop that still runs.
unfoldable pub geometry_loop : ℕ → Bytes → ℕ → List ℤ → Option (Bool × List ℤ)
geometry_loop zero s i tmp = none
geometry_loop (suc f) s i tmp = elim (geometry_turn s i tmp) [
  | done ok out ↦ some (ok, out)
  | go rest j out ↦ geometry_loop f rest j out
]

abbrev pub skip_equals : Bytes → Bytes
skip_equals [] = []
skip_equals (c ∷ cs) = if c == b'=' then cs else c ∷ cs

-- The string without its terminator; `none` is a null pointer.
unfoldable pub parse_geometry_string : Option Bytes → List ℤ → Option (Bool × List ℤ)
parse_geometry_string none tmp = some (false, tmp)
parse_geometry_string (some []) tmp = some (false, tmp)
parse_geometry_string (some (c ∷ cs)) tmp =
    geometry_loop (suc (length (c ∷ cs))) (skip_equals (c ∷ cs)) 0 tmp

-- A rectangle of a screen.
pub record Rect : Type 0 where
  pub x : ℤ
  pub y : ℤ
  pub width : ℕ
  pub height : ℕ

unfoldable pub rect_sort_cb : Rect → Rect → ℤ
rect_sort_cb r1 r2 =
    let bottom = r1.y +ℤ pos r1.height in
    if ltb_ℤ r1.x r2.x || leb_ℤ bottom r2.y
    then negsuc 0
    else if ltb_ℤ r2.x r1.x || ltb_ℤ r2.y bottom
    then pos 1
    else pos 0

-- The twelve numbers of _NET_WM_STRUT_PARTIAL, for a monitor at `x`.
unfoldable pub strut : Bool → ℤ → ℤ → ℤ → List ℤ
strut topbar bh x width =
    let no : ℤ = pos 0 in
    if topbar
    then no ∷ no ∷ bh ∷ no ∷ no ∷ no ∷ no ∷ no ∷ x ∷ (x +ℤ width) ∷ no ∷ no ∷ []
    else no ∷ no ∷ no ∷ bh ∷ no ∷ no ∷ no ∷ no ∷ no ∷ no ∷ x ∷ (x +ℤ width) ∷ []

-- The part of `init` for a screen without monitors: `bw` and `bh` as adjusted, or the exit where
-- the bar does not fit.
unfoldable pub fallback_size : (bx by bw bh bu maxh screen_width screen_height : ℤ) → Option (ℤ × ℤ)
fallback_size bx by bw bh bu maxh screen_width screen_height =
    let w = if ltb_ℤ bw (pos 0) then screen_width -ℤ bx else bw in
    let h = if ltb_ℤ bh (pos 0) || ltb_ℤ screen_height bh then maxh +ℤ bu +ℤ pos 2 else bh in
    if ltb_ℤ screen_width (bx +ℤ w) || ltb_ℤ screen_height (by +ℤ h) then none else some (w, h)

-- What follows the last slash, or the whole path.
unfoldable pub after_slash : Bytes → Bytes → Bytes
after_slash best [] = best
after_slash best (c ∷ cs) = after_slash (if c == b'/' then cs else best) cs

unfoldable pub strip_path : Option Bytes → Bytes
strip_path none = ascii "lemonbar"
strip_path (some []) = ascii "lemonbar"
strip_path (some (c ∷ cs)) = take 31 (after_slash (c ∷ cs) (c ∷ cs))
