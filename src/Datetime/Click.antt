-- ===== src/Datetime/Click.antt =====
-- The click on the clock (modules/datetime.h): what it shows, and when it shows nothing new.
use photonbar.Common.{
  take-append, ◌+◌, ◌≡◌, refl, Bool, true, false, not, arith, Bytes, get_or, take, drop, length,
  if◌then◌else◌,
}
use photonbar.Common.Int.{ℤ, pos}
use photonbar.Datetime.{
  Tm, Action, Datetime, update, perform, clock_text, is_shown, copy_content, day_bytes,
}
use photonbar.Module.{set_seconds_per_update}

-- What is drawn of the element.
abbrev pub text_of : Datetime → Bytes
text_of d = take d.element.content_len d.element.content

-- A click switches between the date and the date with the time, sets the period of the updates
-- to match and draws the bar. When the clock has moved since the last update, the new text is
-- shown; when it has not, the old text stays.
perform-toggle :
    (now : ℤ) (tm : Tm) (d : Datetime)
    → ((perform Action.toggle_hour now tm d).show_hour ≡ not d.show_hour)
      × ((perform Action.toggle_hour now tm d).renders ≡ d.renders + 1)
      × ((perform Action.toggle_hour now tm d).base.seconds_per_update
          ≡ (if d.show_hour then pos 60 else pos 1))
      × (text_of (perform Action.toggle_hour now tm d)
          ≡ (if is_shown tm d then text_of d else clock_text (not d.show_hour) tm))
unfolding perform update copy_content is_shown set_seconds_per_update
perform-toggle now tm d = ground (
  arith,
  take-append (clock_text (not d.show_hour) tm)
      (drop (length (clock_text (not d.show_hour) tm)) d.element.content),
)

-- On a Wednesday the text breaks a character: the lead byte 0xc3 of é is followed by the space.
clock_text_wednesday :
    (show_hour : Bool) (tm : Tm)
    → tm.wday ≡ 3
    → (get_or (clock_text show_hour tm) 2 0 ≡ 0xc3) × (get_or (clock_text show_hour tm) 3 0 ≡ 32)
unfolding clock_text day_bytes
clock_text_wednesday true tm h = rw h (refl, refl)
clock_text_wednesday false tm h = rw h (refl, refl)
