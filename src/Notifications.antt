-- ===== src/Notifications.antt =====
-- modules/notifications.h: whether dunst is paused and how many notifications wait. What the two
-- `popen` calls print is an argument, `none` where the pipe cannot be opened; the shell and dunst
-- are not modelled, and `atoi`, of the C library, is a parameter of `update_state`.
pub mod State
use photonbar.Common.{
  ℕ, zero, suc, ◌+◌, ◌==◌, Bool, true, false, ◌||◌, Option, none, some, List, [], ◌∷◌, ◌++◌,
  if◌then◌else◌, Bytes, ascii, bytes_eq, take, length,
}
use photonbar.Common.Int.{ℤ, pos, ltb_ℤ}
use photonbar.Common.Format.{format_d, store}
use photonbar.BarElement.{BarElement, EventType, new_element, set_event, set_color}
use photonbar.Module.{Module, new_module}
use photonbar.Palette.{default_color, muted_color}
use photonbar.Utf8.{encode_utf8}

pub data Action : Type 0 where
  toggle_notifications : Action

pub record Notifications : Type 0 where
  pub base : Module
  pub element : BarElement Action
  pub is_paused : Bool
  pub waiting_count : ℤ
  pub set_paused_calls : ℕ
  pub renders : ℕ

unfoldable pub new_notifications : Notifications
new_notifications = record {
  base = new_module (ascii "notifications") false (pos 0);
  element = set_event EventType.click_left Action.toggle_notifications new_element;
  is_paused = false;
  waiting_count = pos 0;
  set_paused_calls = 0;
  renders = 0;
}

-- The line that `fgets` puts into the buffer of 16 bytes, up to its first newline.
abbrev pub line : ℕ → Bytes → Bytes
line zero s = []
line (suc n) [] = []
line (suc n) (c ∷ cs) = let rest = line n cs in if c == 10 then c ∷ [] else c ∷ rest

-- What the two commands print.
pub record Dunst : Type 0 where
  pub is_paused : Option Bytes
  pub count_waiting : Option Bytes

unfoldable pub prints_true : Bytes → Bool
prints_true s =
    let buf = line 15 s in bytes_eq buf (ascii "true" ++ (10 ∷ [])) || bytes_eq buf (ascii "true")

unfoldable pub update_state : (Bytes → ℤ) → Dunst → Notifications → Notifications
update_state atoi answers n = record n {
  is_paused = elim answers.is_paused [ none ↦ n.is_paused | some s ↦ prints_true s ];
  waiting_count = elim answers.count_waiting [ none ↦ n.waiting_count | some s ↦ atoi (line 15 s) ];
}

abbrev pub bell_off : Bytes
bell_off = encode_utf8 0xf009b

abbrev pub bell : Bytes
bell = encode_utf8 0xf009c

-- `snprintf(content, CONTENT_MAX_LEN, …)`; contentLen is left alone.
abbrev pub write : Bytes → BarElement Action → BarElement Action
write t e = record e { content = store 254 t e.content }

unfoldable pub update_visuals : Notifications → Notifications
update_visuals n =
    let shown =
      if n.is_paused
      then set_color muted_color (
          write
            (if ltb_ℤ (pos 0) n.waiting_count
              then bell_off ++ (32 ∷ format_d n.waiting_count)
              else bell_off)
            n.element)
      else set_color default_color (write bell n.element) in
    record n { element = record shown { dirty_content = true } }

-- `initialize` and `update` do the same.
unfoldable pub update : (Bytes → ℤ) → Dunst → Notifications → Notifications
update atoi answers n = update_visuals (update_state atoi answers n)

-- The handler of a left click, with what dunst answers after the toggle.
unfoldable pub perform : Action → (Bytes → ℤ) → Dunst → Notifications → Notifications
perform Action.toggle_notifications atoi answers n =
    let asked = record n { set_paused_calls = n.set_paused_calls + 1 } in
    let updated = update atoi answers asked in
    if updated.base.render_set then record updated { renders = updated.renders + 1 } else updated
