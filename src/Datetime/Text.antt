-- ===== src/Datetime/Text.antt =====
-- The text of the clock (modules/datetime.h, `update`): its length, its fields, and that they can
-- be read back.
use photonbar.Common.{
  take-append, ℕ, ◌+◌, ◌-◌, ◌*◌, ◌/◌, ◌%◌, ◌≤◌, ◌<◌, ◌≡◌, refl, drop, Bool, true, false, some,
  arith, if◌then◌else◌, Bytes, length, get_or, take,
}
use photonbar.Common.Int.{ℤ}
use photonbar.Datetime.{
  Tm, Datetime, update, clock_text, is_shown, write2digits, write_year, day_bytes, copy_content,
}

-- The ranges that `localtime_r` keeps, up to the year 9999.
pub record IsTm (tm : Tm) : Type 0 where
  pub sec≤60 : tm.sec ≤ 60
  pub min<60 : tm.min < 60
  pub hour<24 : tm.hour < 24
  pub mday≤31 : tm.mday ≤ 31
  pub mon<12 : tm.mon < 12
  pub year≤8099 : tm.year ≤ 8099
  pub wday<7 : tm.wday < 7

-- The number that two decimal digits at `i` write.
abbrev pub read2 : Bytes → ℕ → ℕ
read2 s i = (get_or s i 0 - 48) * 10 + (get_or s (i + 1) 0 - 48)

-- The text of a date without the clock has 14 bytes, and 23 with it: the buffer of 32 holds it.
length-clock_text :
    (show_hour : Bool) (tm : Tm) → length (clock_text show_hour tm) ≡ (if show_hour then 23 else 14)
unfolding clock_text write2digits write_year day_bytes
length-clock_text true tm = refl
length-clock_text false tm = refl

-- An update at a time that differs from the last one shows the text of that time in the current
-- mode, in at most 23 bytes, and remembers the time.
update-shows :
    (now : ℤ) (tm : Tm) (d : Datetime)
    → is_shown tm d ≡ false
    → (take (update now tm d).element.content_len (update now tm d).element.content
        ≡ clock_text d.show_hour tm)
      × ((update now tm d).element.content_len ≤ 23)
      × ((update now tm d).last ≡ some tm)
      × ((update now tm d).element.dirty_content ≡ true)
unfolding update copy_content
update-shows now tm d h = ground (
  arith,
  length-clock_text d.show_hour tm,
  take-append (clock_text d.show_hour tm)
      (drop (length (clock_text d.show_hour tm)) d.element.content),
)

digits_lem : (n : ℕ) → n < 100 → (((48 + n / 10) % 256 - 48) * 10 + ((48 + n % 10) % 256 - 48)) ≡ n
digits_lem n h = omega arith

-- Up to the year 9999 the day, the month and the year can be read off the text in both modes, and
-- the time of day in the one that shows it.
pub clock_text-reads :
    (show_hour : Bool) (tm : Tm)
    → IsTm tm
    → (read2 (clock_text show_hour tm) 4 ≡ tm.mday)
      × (read2 (clock_text show_hour tm) 7 ≡ tm.mon + 1)
      × (read2 (clock_text show_hour tm) 10 * 100 + read2 (clock_text show_hour tm) 12
          ≡ tm.year + 1900)
      × (read2 (clock_text true tm) 15 ≡ tm.hour)
      × (read2 (clock_text true tm) 18 ≡ tm.min)
      × (read2 (clock_text true tm) 21 ≡ tm.sec)
unfolding clock_text write2digits write_year day_bytes
clock_text-reads show_hour tm h =
    let day = digits_lem tm.mday (omega (arith, h.mday≤31)) in
    let month = digits_lem (tm.mon + 1) (omega (arith, h.mon<12)) in
    let hour = digits_lem tm.hour (omega (arith, h.hour<24)) in
    let minute = digits_lem tm.min (omega (arith, h.min<60)) in
    let second = digits_lem tm.sec (omega (arith, h.sec≤60)) in
    (day, month, omega (arith, h.year≤8099), hour, minute, second)
