-- ===== src/Datetime.antt =====
-- modules/datetime.h: the clock of the bar. What `localtime_r` fills in is an argument: the
-- fields of `struct tm` are natural numbers (the year counts from 1900). The fields lastSec to
-- lastYear start at -1, which no clock shows, and are always set together: they are `last`.
pub mod Text
pub mod Click
use photonbar.Common.{
  ℕ, ◌+◌, ◌/◌, ◌%◌, Bool, true, false, not, ◌&&◌, Option, none, some, List, [], ◌∷◌, ◌++◌, ◌==◌,
  if◌then◌else◌, Bytes, ascii, length, drop, get_or,
}
use photonbar.Common.Int.{ℤ, pos}
use photonbar.BarElement.{BarElement, EventType, new_element, set_event}
use photonbar.Module.{Module, new_module, set_seconds_per_update}

pub record Tm : Type 0 where
  pub sec : ℕ
  pub min : ℕ
  pub hour : ℕ
  pub mday : ℕ
  pub mon : ℕ
  pub year : ℕ
  pub wday : ℕ

-- What the handlers of the element do.
pub data Action : Type 0 where
  toggle_hour : Action

pub record Datetime : Type 0 where
  pub base : Module
  pub element : BarElement Action
  pub show_hour : Bool
  pub last : Option Tm
  pub renders : ℕ

unfoldable pub new_datetime : Datetime
new_datetime = record {
  base = new_module (ascii "datetime") false (pos 1);
  element = set_event EventType.click_left Action.toggle_hour new_element;
  show_hour = true;
  last = none;
  renders = 0;
}

-- The names of the days in the encoding of the source, UTF-8: the one of Wednesday has four bytes.
abbrev pub dias : List Bytes
dias =
    ascii "dom"
    ∷ ascii "lun"
    ∷ ascii "mar"
    ∷ (109 ∷ 105 ∷ 0xc3 ∷ 0xa9 ∷ [])
    ∷ ascii "jue"
    ∷ ascii "vie"
    ∷ ascii "sab"
    ∷ []

-- `write2digits`: the chars '0' + val / 10 and '0' + val % 10.
unfoldable pub write2digits : ℕ → Bytes
write2digits val = (48 + val / 10) % 256 ∷ (48 + val % 10) % 256 ∷ []

-- The four digits of the year, each written after the previous ones are taken off.
unfoldable pub write_year : ℕ → Bytes
write_year year =
    (48 + year / 1000) % 256
    ∷ (48 + year % 1000 / 100) % 256
    ∷ (48 + year % 1000 % 100 / 10) % 256
    ∷ (48 + year % 1000 % 100 % 10) % 256
    ∷ []

-- `memcpy(p, dayStr, 3)`.
unfoldable pub day_bytes : ℕ → Bytes
day_bytes wday = let s = get_or dias wday [] in get_or s 0 0 ∷ get_or s 1 0 ∷ get_or s 2 0 ∷ []

-- What `update` writes into `contentBuf`.
unfoldable pub clock_text : Bool → Tm → Bytes
clock_text show_hour tm =
    day_bytes tm.wday
    ++ (b' ' ∷ write2digits tm.mday)
    ++ (b'-' ∷ write2digits (tm.mon + 1))
    ++ (b'-' ∷ write_year (tm.year + 1900))
    ++ (if show_hour
        then (b' ' ∷ write2digits tm.hour)
          ++ (b':' ∷ write2digits tm.min)
          ++ (b':' ∷ write2digits tm.sec)
        else [])

unfoldable pub same_tm : Tm → Tm → Bool
same_tm a b =
    a.sec == b.sec
    && a.min == b.min
    && a.hour == b.hour
    && a.mday == b.mday
    && a.wday == b.wday
    && a.mon == b.mon
    && a.year == b.year

-- `memcpy(content, contentBuf, contentLen)`, which writes no terminator.
unfoldable pub copy_content : Bytes → BarElement Action → BarElement Action
copy_content text e = record e {
  content = text ++ drop (length text) e.content;
  content_len = length text;
  dirty_content = true;
}

-- Whether the clock shows what it showed at the last update.
unfoldable pub is_shown : Tm → Datetime → Bool
is_shown tm d = elim d.last [ none ↦ false | some before ↦ same_tm tm before ]

unfoldable pub update : ℤ → Tm → Datetime → Datetime
update now tm d = if is_shown tm d then d else record d {
  last = some tm;
  element = copy_content (clock_text d.show_hour tm) d.element;
  base = record d.base { last_update = now };
}

-- The handler of a left click; it calls `renderFunction` without asking whether it is set.
unfoldable pub perform : Action → ℤ → Tm → Datetime → Datetime
perform Action.toggle_hour now tm d =
    let shows = not d.show_hour in
    let toggled = record d {
      show_hour = shows;
      base = set_seconds_per_update (if shows then pos 1 else pos 60) d.base;
    } in
    let updated = update now tm toggled in record updated { renders = updated.renders + 1 }
