-- ===== src/Timer/Display.antt =====
-- What modules/timer.h shows: the three numbers, the visibility and the colours.
use photonbar.Common.{ℕ, ◌+◌, ◌*◌, ◌/◌, ◌%◌, ◌<◌, true, false, ◌≡◌, arith}
use photonbar.Common.Int.{ℤ, pos, div_ℤ, mod_ℤ}
use photonbar.Common.Format.{to_int_small}
use photonbar.BarElement.{set_text}
use photonbar.Timer.Clock.{Timer, Place}
use photonbar.Timer.{
  hours, minutes, seconds, update, apply_colors, check_timer_alert, send_alert, rearm_alert, show,
  play_text,
}

-- The hours, minutes and seconds shown make up the whole seconds left, below 60 minutes and 60
-- seconds, as long as the hours fit an int.
display-remaining :
    (ms : ℕ)
    → ms < 2147483648 * 3600000
    → (h : ℕ) × (m : ℕ) × (s : ℕ) × (hours (pos ms) ≡ pos h)
      × (minutes (pos ms) ≡ pos m)
      × (seconds (pos ms) ≡ pos s)
      × (h * 3600 + m * 60 + s ≡ ms / 1000)
      × (m < 60)
      × (s < 60)
unfolding hours minutes seconds div_ℤ mod_ℤ
display-remaining ms h = (
  ms / 3600000,
  ms % 3600000 / 60000,
  ms % 60000 / 1000,
  to_int_small _ (omega arith),
  to_int_small _ (omega arith),
  to_int_small _ (omega arith),
  omega arith,
  omega arith,
  omega arith,
)

-- With the details hidden only the logo has a text; every element is marked for a new layout.
update_hidden :
    (now : Place → ℕ) (wall : ℤ) (t : Timer)
    → t.show_details ≡ false
    → let u = update now wall t in
      (u.play_icon.content_len ≡ 0)
      × (u.hour.content_len ≡ 0)
      × (u.minute.content_len ≡ 0)
      × (u.second.content_len ≡ 0)
      × (u.base.content_len ≡ 4)
      × (u.base.dirty_content ≡ true)
      × (u.second.dirty_content ≡ true)
unfolding update apply_colors check_timer_alert send_alert rearm_alert show play_text set_text
update_hidden now wall t h = ground arith
