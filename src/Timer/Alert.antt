-- ===== src/Timer/Alert.antt =====
-- `checkTimerAlert` of modules/timer.h over any number of updates.
use photonbar.Common.{
  ℕ, suc, ◌+◌, true, false, ◌≡◌, ◌≢◌, refl, arith, List, [], ◌∷◌, ◌++◌, ◌∙◌, if◌then◌else◌,
}
use photonbar.Common.Int.{ℤ, pos, eqb_ℤ_iff}
use photonbar.Timer.Clock.{Timer, Place, Effect, remaining_ms, is_positive}
use photonbar.Timer.{update, apply_colors, check_timer_alert, send_alert, rearm_alert, show}
use photonbar.Timer.Pause.{SameCount, check-SameCount, remaining_ms-SameCount}

-- How many notifications have been sent.
abbrev pub notices : List Effect → ℕ
notices [] = 0
notices (Effect.notified ∷ es) = suc (notices es)
notices (Effect.rendered ∷ es) = notices es

notices-snoc : (es : List Effect) → notices (es ++ (Effect.notified ∷ [])) ≡ notices es + 1
notices-snoc [] = refl
notices-snoc (Effect.notified ∷ es) = omega (arith, notices-snoc es)
notices-snoc (Effect.rendered ∷ es) = notices-snoc es

-- The time of a running countdown is up at the readings that the alert uses.
pub record IsUp (t : Timer) (now : Place → ℕ) : Type 0 where
  pub runs : t.is_running ≡ true
  pub unpaused : t.is_paused ≡ false
  pub none_left : remaining_ms (now Place.alert) t ≡ pos 0
  pub none_later : remaining_ms (now Place.rearm) t ≡ pos 0

update-SameCount : (now : Place → ℕ) (wall : ℤ) (t : Timer) → SameCount (update now wall t) t
unfolding update apply_colors show
update-SameCount now wall t = ground (arith, check-SameCount now (apply_colors now t))

colors-SameCount : (now : Place → ℕ) (t : Timer) → SameCount (apply_colors now t) t
unfolding apply_colors
colors-SameCount now t = ground arith

send-SameCount : (now : ℕ) (t : Timer) → SameCount (send_alert now t) t
unfolding send_alert
send-SameCount now t = ground arith

-- Up to the flag, the alert looks at the countdown alone.
check_IsUp :
    (now : Place → ℕ) (t : Timer)
    → IsUp t now
    → (notices (check_timer_alert now t).effects
        ≡ notices t.effects + (if t.notification_sent then 0 else 1))
      × ((check_timer_alert now t).notification_sent ≡ true)
unfolding check_timer_alert send_alert rearm_alert
check_IsUp now t up = ground (
  arith,
  remaining_ms-SameCount (now Place.rearm) (send-SameCount (now Place.alert) t),
  notices-snoc t.effects,
)

check_armed :
    (now : Place → ℕ) (t : Timer)
    → remaining_ms (now Place.alert) t ≢ pos 0
    → is_positive (remaining_ms (now Place.rearm) t) ≡ true
    → (notices (check_timer_alert now t).effects ≡ notices t.effects)
      × ((check_timer_alert now t).notification_sent ≡ false)
unfolding check_timer_alert send_alert rearm_alert
check_armed now t left later = ground (
  arith,
  remaining_ms-SameCount (now Place.rearm) (send-SameCount (now Place.alert) t),
  eqb_ℤ_iff (remaining_ms (now Place.alert) t) (pos 0),
)

IsUp-SameCount : {s t : Timer} (now : Place → ℕ) → SameCount s t → IsUp t now → IsUp s now
IsUp-SameCount now e up =
    ground (
      arith,
      remaining_ms-SameCount (now Place.alert) e,
      remaining_ms-SameCount (now Place.rearm) e,
    )

-- One update: the notification goes out if it has not, and the flag is set.
update_IsUp :
    (now : Place → ℕ) (wall : ℤ) (t : Timer)
    → IsUp t now
    → (notices (update now wall t).effects
        ≡ notices t.effects + (if t.notification_sent then 0 else 1))
      × ((update now wall t).notification_sent ≡ true)
unfolding update show
update_IsUp now wall t up =
    let colored =
      check_IsUp now (apply_colors now t) (IsUp-SameCount now (colors-SameCount now t) up) in
    unfold apply_colors in colored

-- A countdown that has time left sends nothing and is armed again.
update_armed :
    (now : Place → ℕ) (wall : ℤ) (t : Timer)
    → remaining_ms (now Place.alert) t ≢ pos 0
    → is_positive (remaining_ms (now Place.rearm) t) ≡ true
    → (notices (update now wall t).effects ≡ notices t.effects)
      × ((update now wall t).notification_sent ≡ false)
unfolding update show
update_armed now wall t left later =
    let same = colors-SameCount now t in
    let armed =
      check_armed now (apply_colors now t) (rw (remaining_ms-SameCount (now Place.alert) same) left)
        (rw (remaining_ms-SameCount (now Place.rearm) same) later) in
    unfold apply_colors in armed

pub updates : List ((Place → ℕ) × ℤ) → Timer → Timer
updates [] t = t
updates ((now, wall) ∷ rest) t = updates rest (update now wall t)

-- The time is up at every one of the readings.
abbrev pub StaysUp : Timer → List ((Place → ℕ) × ℤ) → Type 0
StaysUp t [] = Unit
StaysUp t ((now, wall) ∷ rest) = IsUp t now × StaysUp t rest

StaysUp-SameCount :
    {s t : Timer} (reads : List ((Place → ℕ) × ℤ))
    → SameCount s t
    → StaysUp t reads
    → StaysUp s reads
StaysUp-SameCount [] e h = tt
StaysUp-SameCount ((now, wall) ∷ rest) e h =
    (IsUp-SameCount now e h.0, StaysUp-SameCount rest e h.1)

updates_sent :
    (reads : List ((Place → ℕ) × ℤ)) (t : Timer)
    → StaysUp t reads
    → t.notification_sent ≡ true
    → notices (updates reads t).effects ≡ notices t.effects
unfolding updates
updates_sent [] t h sent = refl
updates_sent ((now, wall) ∷ rest) t h sent =
    let u = update now wall t in
    let one = update_IsUp now wall t h.0 in
    updates_sent rest u (StaysUp-SameCount rest (update-SameCount now wall t) h.1) one.1
    ∙ one.0
    ∙ ground arith

-- However often the module is drawn while it runs and its time is up at each reading, exactly one
-- notification is sent, if none had been.
pub alert_once :
    (now : Place → ℕ) (wall : ℤ) (reads : List ((Place → ℕ) × ℤ)) (t : Timer)
    → StaysUp t ((now, wall) ∷ reads)
    → t.notification_sent ≡ false
    → notices (updates ((now, wall) ∷ reads) t).effects ≡ notices t.effects + 1
unfolding updates
alert_once now wall reads t h fresh =
    let one = update_IsUp now wall t h.0 in
    updates_sent reads (update now wall t)
      (StaysUp-SameCount reads (update-SameCount now wall t) h.1) one.1
    ∙ one.0
    ∙ ground arith
