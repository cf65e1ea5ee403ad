-- ===== src/Fonts.antt =====
-- bar.h, the fonts of a bar: `font_t`, `fontHasGlyph`, `selectDrawableFont`, `getUtf8CharWidth`,
-- `addYOffset`, the list that `fontLoad` appends to and the heights that `init` makes equal. What
-- Xft says of a font is a parameter: `exists_char` is `XftCharExists`, and `xft_width` the width
-- that `xftCharWidth` gives, see Glyphs. A table of widths is the memory from its start on.
pub mod Choice
pub mod Open
use photonbar.Common.{
  ℕ, zero, suc, ◌+◌, ◌-◌, ◌%◌, Bool, true, false, not, ◌&&◌, ◌||◌, Option, none, some, List, [],
  ◌∷◌, ◌++◌, ltb, leb, ◌==◌, if◌then◌else◌, length, get_elem?, set, map,
}
use photonbar.Common.Int.{ℤ, pos, leb_ℤ, ltb_ℤ, eqb_ℤ}

abbrev pub max_font_count : ℕ
max_font_count = 5

-- `xft` names the Xft font, `none` for a font of the X server.
pub record Font : Type 0 where
  pub ptr : ℕ
  pub width_lut : Option (ℕ → ℤ)
  pub xft : Option ℕ
  pub descent : ℤ
  pub height : ℤ
  pub width : ℤ
  pub char_max : ℕ
  pub char_min : ℕ

pub record Fonts : Type 0 where
  pub font_list : List Font
  -- `none` is -1.
  pub font_index : Option ℕ
  pub offsets_y : List ℤ
  pub offset_y_count : ℕ

-- The font and its place in the list, which becomes `offsetYIndex`.
pub record Chosen : Type 0 where
  pub font : Font
  pub index : ℕ

-- The subtraction of two uint32_t.
abbrev pub sub_uint32 : ℕ → ℕ → ℕ
sub_uint32 a b = (a + 4294967296 - b) % 4294967296

module _ (exists_char : ℕ → ℕ → Bool) where
  unfoldable pub font_has_glyph : Font → ℕ → Bool
  font_has_glyph f c = elim f.xft [
    | some x ↦ exists_char x c
    | none ↦ if ltb c f.char_min || ltb f.char_max c then false else elim f.width_lut [
      | none ↦ true
      | some widths ↦ not (eqb_ℤ (widths (sub_uint32 c f.char_min)) (pos 0))
    ]
  ]

  -- The loop, from the font at `i` on.
  unfoldable pub first_font : ℕ → ℕ → List Font → Option Chosen
  first_font c i [] = none
  first_font c i (f ∷ fs) =
      let rest = first_font c (i + 1) fs in
      if font_has_glyph f c then some (record { font = f; index = i }) else rest

  -- The font that the user asked for, where there is one and it has the character.
  unfoldable pub asked_font : Fonts → ℕ → Option Chosen
  asked_font fs c = elim fs.font_index [
    | none ↦ none
    | some k ↦ elim (get_elem? fs.font_list (k - 1)) [
      | none ↦ none
      | some f ↦ if font_has_glyph f c then some (record { font = f; index = k - 1 }) else none
    ]
  ]

  unfoldable pub select_drawable_font : Fonts → ℕ → Option Chosen
  select_drawable_font fs c = elim (asked_font fs c) [
    | some k ↦ some k
    | none ↦ first_font c 0 fs.font_list
  ]

-- `xft_width` is the width of a character in an Xft font.
unfoldable pub get_utf8_char_width : (ℕ → ℤ) → ℕ → Option Font → ℤ
get_utf8_char_width xft_width c none = pos 0
get_utf8_char_width xft_width c (some f) = elim f.xft [
  | some x ↦ xft_width c
  | none ↦ elim f.width_lut [
    | none ↦ f.width
    | some widths ↦
        if leb f.char_min c && leb c f.char_max then widths (sub_uint32 c f.char_min) else f.width
  ]
]

-- The start and the end of `fontLoad`: a font that could be opened goes behind the others.
unfoldable pub font_load : Option Font → List Font → List Font
font_load opened fonts =
    if leb max_font_count (length fonts)
    then fonts
    else elim opened [ none ↦ fonts | some f ↦ fonts ++ (f ∷ []) ]

-- `for (int i = 1; i < MAX_FONT_COUNT; ++i) offsetsY[i] = offsetsY[0];`
abbrev pub fill_offsets : ℤ → List ℤ → List ℤ
fill_offsets offset [] = []
fill_offsets offset (o ∷ os) = offset ∷ map (λ _. offset) os

unfoldable pub add_y_offset : ℤ → Fonts → Fonts
add_y_offset offset fs = if leb max_font_count fs.offset_y_count then fs else record fs {
  offsets_y =
      if fs.offset_y_count == 0
      then fill_offsets offset fs.offsets_y
      else set fs.offsets_y fs.offset_y_count offset;
  offset_y_count = fs.offset_y_count + 1;
}

-- The macro `max`.
abbrev pub max_ℤ : ℤ → ℤ → ℤ
max_ℤ a b = if ltb_ℤ b a then a else b

abbrev pub max_height : ℤ → List Font → ℤ
max_height h [] = h
max_height h (f ∷ fs) = max_height (max_ℤ h f.height) fs

-- The first part of `init`; `none` is the exit where no font could be loaded.
unfoldable pub equal_heights : List Font → Option (List Font)
equal_heights [] = none
equal_heights (f ∷ fs) =
    let maxh = max_height f.height fs in
    some (map {B = Font} (λ (g : Font). record g { height = maxh }) (f ∷ fs))
