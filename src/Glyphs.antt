-- ===== src/Glyphs.antt =====
-- bar.h, `xftCharWidthSlot` and `xftCharWidth`: the widths that Xft has been asked for, in a table
-- with linear probing. The arrays are functions of the slot, and the character 0 marks an empty
-- one. The table's size is a parameter, MAX_WIDTHS in the code, so that small tables can be run.
-- `xftWidth` is an array of `char`, which is signed on the targets.
pub mod Slots
pub mod Widths
use photonbar.Common.{
  ℕ, zero, suc, ◌+◌, ◌-◌, ◌*◌, ◌%◌, Bool, true, false, ◌||◌, Option, none, some, ◌==◌, ltb,
  if◌then◌else◌,
}
use photonbar.Common.Int.{ℤ, pos, negsuc, leb_ℤ}

abbrev pub max_widths : ℕ
max_widths = 65536

-- What `XftGlyphExtents` fills in and the code reads: a short and an unsigned short.
pub record Extents : Type 0 where
  pub x_off : ℤ
  pub width : ℕ

-- The larger of the two.
unfoldable pub advance : Extents → ℤ
advance gi = if leb_ℤ (pos gi.width) gi.x_off then gi.x_off else pos gi.width

-- The conversion of an int to a signed char.
abbrev pub of_byte : ℕ → ℤ
of_byte m = if ltb m 128 then pos m else negsuc (255 - m)

unfoldable pub to_char : ℤ → ℤ
to_char (pos n) = of_byte (n % 256)
to_char (negsuc n) = of_byte ((256 - suc n % 256) % 256)

pub record Cache : Type 0 where
  pub chars : ℕ → ℕ
  pub widths : ℕ → ℤ
  -- How often Xft has been asked.
  pub asked : ℕ

abbrev pub empty_cache : Cache
empty_cache = record { chars = λ s. 0; widths = λ s. pos 0; asked = 0 }

-- Where the loop stops: an empty slot, or the one of the character.
abbrev pub stops : (ℕ → ℕ) → ℕ → ℕ → Bool
stops chars ch slot = chars slot == 0 || chars slot == ch

abbrev pub write {ℓ} : {A : Type ℓ} → (ℕ → A) → ℕ → A → ℕ → A
write f slot a s = if s == slot then a else f s

module _ (size : ℕ) where
  -- The loop of `xftCharWidthSlot` for at most `fuel` rounds; `none` is a loop that still runs.
  unfoldable pub find_slot : ℕ → (ℕ → ℕ) → ℕ → ℕ → Option ℕ
  find_slot zero chars ch slot = none
  find_slot (suc fuel) chars ch slot =
      let rest = find_slot fuel chars ch ((slot + 1) % size) in
      if stops chars ch slot then some slot else rest

  unfoldable pub xft_char_width_slot : (ℕ → ℕ) → ℕ → Option ℕ
  xft_char_width_slot chars ch = find_slot size chars ch (ch % size)

  -- `ask` is Xft's answer for a character in the font of the call.
  unfoldable pub xft_char_width : (ℕ → Extents) → ℕ → Cache → Option (Cache × ℤ)
  xft_char_width ask ch c = elim (xft_char_width_slot c.chars ch) [
    | none ↦ none
    | some slot ↦
        let w = to_char (advance (ask ch)) in
        some (
          if c.chars slot == 0
          then (
            record {
              chars = write c.chars slot ch;
              widths = write c.widths slot w;
              asked = c.asked + 1;
            },
            w,
          )
          else if c.chars slot == ch
          then (c, c.widths slot)
          else (c, pos 0))
  ]
