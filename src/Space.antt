-- ===== src/Space.antt =====
-- modules/space.h: the free space of the root file system and its display modes. `statvfs` answers
-- with the size of a block and the numbers of available and of all blocks, or fails.
pub mod Modes
use photonbar.Common.{
  ℕ, ◌+◌, ◌-◌, ◌*◌, ◌%◌, Bool, Option, none, some, ◌++◌, ◌∷◌, ◌==◌, if◌then◌else◌, Bytes, ascii,
}
use photonbar.Common.Int.{ℤ, pos}
use photonbar.Common.Floats.{Floats}
use photonbar.BarElement.{BarElement, EventType, new_element, set_event, set_text, set_color}
use photonbar.Palette.{default_color}
use photonbar.Utf8.{encode_utf8}

pub data Action : Type 0 where
  cycle : Action

pub record Statvfs : Type 0 where
  pub bsize : ℕ
  pub bavail : ℕ
  pub blocks : ℕ

pub record Space (W : Type 0) : Type 0 where
  pub element : BarElement Action
  pub display_mode : ℕ
  pub free_gb : W
  pub used_percentage : W
  pub cache_until : ℤ
  pub last_update : ℤ
  pub renders : ℕ

abbrev pub num_display_modes : ℕ
num_display_modes = 3

-- The arithmetic of unsigned long.
abbrev pub ulong : ℕ → ℕ
ulong n = n % 18446744073709551616

abbrev pub ulong_sub : ℕ → ℕ → ℕ
ulong_sub a b = (a + 18446744073709551616 - b) % 18446744073709551616

abbrev pub icon : Bytes
icon = encode_utf8 0xf0c7

module _ {W : Type 0} (f : Floats W) where
  -- `(double)n / (1024.0 * 1024.0 * 1024.0)`.
  abbrev pub gigabytes : ℕ → W
  gigabytes n = f.div (f.of_int (pos n)) (f.of_int (pos 1073741824))

  unfoldable pub new_space : Space W
  new_space = record {
    element = set_color default_color (
        set_event EventType.click_right Action.cycle
          (set_event EventType.click_left Action.cycle new_element));
    display_mode = 0;
    free_gb = f.of_int (pos 0);
    used_percentage = f.of_int (pos 0);
    cache_until = pos 0;
    last_update = pos 0;
    renders = 0;
  }

  unfoldable pub get_space_usage : Option Statvfs → ℕ → Space W → Space W
  get_space_usage none now s = record s {
    free_gb = f.of_int (pos 0);
    used_percentage = f.of_int (pos 0);
    cache_until = pos 0;
  }
  get_space_usage (some v) now s =
      let used = gigabytes (ulong (ulong_sub v.blocks v.bavail * v.bsize)) in
      let total = gigabytes (ulong (v.blocks * v.bsize)) in
      record s {
        free_gb = gigabytes (ulong (v.bavail * v.bsize));
        used_percentage = f.mul (f.div used total) (f.of_int (pos 100));
        cache_until = pos (now + 1);
      }

  unfoldable pub space_text : Space W → Bytes
  space_text s =
      let free = icon ++ (32 ∷ (f.fixed 2 s.free_gb ++ ascii "GB")) in
      let used = icon ++ (32 ∷ (f.fixed 0 s.used_percentage ++ ascii "%")) in
      let mode = s.display_mode % num_display_modes in
      if mode == 1 then free else if mode == 2 then used else free

  unfoldable pub update : Option Statvfs → ℕ → Space W → Space W
  update answer now s =
      let seen = get_space_usage answer now s in
      record seen {
        element = set_color default_color (set_text (space_text seen) seen.element);
        last_update = pos now;
      }

  -- Both clicks.
  unfoldable pub click : Bool → Option Statvfs → ℕ → Space W → Space W
  click render_set answer now s =
      let mode = (s.display_mode + 1) % num_display_modes in
      let next = update answer now (record s { display_mode = mode }) in
      record next { renders = if render_set then next.renders + 1 else next.renders }
