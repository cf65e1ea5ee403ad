-- ===== src/Bars/Drawn.antt =====
-- Which handlers of the modules leave the bar undrawn, and what handlers keep.
use photonbar.Common.{◌≡◌, refl, Bool, true, false, not, ◌&&◌, Option, none, some, arith}
use photonbar.Common.Int.{pos}
use photonbar.Module.{set_seconds_per_update, traits}
use photonbar.Bars.{BarModule, Answers, Libraries, base}
use photonbar.Bars.Press.{Action, press, handle, timer_returns, audio_returns}
use photonbar.Bars.Kept.{audio_performed, clock_kept, timer_kept, stopwatch_kept}
use photonbar.Audio
use photonbar.Datetime
use photonbar.Notifications
use photonbar.Timer.Clock
use photonbar.Timer.Handlers
use photonbar.Stopwatch

handle_draws :
    {M H : Type 0} (run : H → M × Bool) (o : Option H) (m : M)
    → ((h : H) → (run h).1 ≡ false → (run h).0 ≡ m)
    → (handle run o m).1 ≡ false
    → (handle run o m).0 ≡ m
unfolding handle
handle_draws run none m each e = refl
handle_draws run (some h) m each e = each h e

handle_keeps :
    {M H B : Type 0} (of : M → B) (run : H → M × Bool) (o : Option H) (m : M)
    → ((h : H) → of (run h).0 ≡ of m)
    → of (handle run o m).0 ≡ of m
unfolding handle
handle_keeps of run none m each = refl
handle_keeps of run (some h) m each = each h

set_and : {set more : Bool} → set ≡ true → (set && more) ≡ false → more ≡ false
set_and {set} {more} e f = ground (arith, e, f)

module _ {W : Type 0} (l : Libraries W) (a : Answers W) where
  timer_undrawn :
      (h : Clock.Action) (s : Clock.Timer)
      → not (timer_returns a.timer_clock h s) ≡ false
      → Handlers.perform a.timer_clock (pos a.wall) h s ≡ s
  unfolding timer_returns Handlers.perform Handlers.reset Handlers.adjust_time
  timer_undrawn Clock.Action.play_pause s e = absurd (ground arith)
  timer_undrawn Clock.Action.reset s e = ground arith
  timer_undrawn Clock.Action.toggle_details s e = absurd (ground arith)
  timer_undrawn (Clock.Action.adjust ms) s e = ground arith

  audio_undrawn :
      (h : Audio.Action) (s : Audio.Audio)
      → not (audio_returns h s) ≡ false
      → Audio.perform l.volume_norm h a.sinks s ≡ s
  unfolding audio_returns Audio.perform
  audio_undrawn Audio.Action.toggle_mute s e = absurd (ground arith)
  audio_undrawn Audio.Action.cycle_sinks s e = ground arith
  audio_undrawn (Audio.Action.adjust_volume delta) s e = absurd (ground arith)

  -- A handler that does not draw the bar, though there is a render function, leaves its module as it
  -- was.
  pub press-undrawn :
      (h : Action) (m : BarModule W)
      → (base m).render_set ≡ true
      → (press l a h m).1 ≡ false
      → (press l a h m).0 ≡ m
  unfolding press base
  press-undrawn h (BarModule.workspace s) set e =
      handle_draws _ _ _ (λ k f. absurd (ground (arith, set))) e
  press-undrawn h (BarModule.audio s) set e =
      handle_draws _ _ _ (λ k f. rw (audio_undrawn k s (set_and set f)) refl) e
  press-undrawn h (BarModule.battery s r) set e = refl
  press-undrawn h (BarModule.notifications s) set e =
      handle_draws _ _ _ (λ k f. absurd (ground (arith, set))) e
  press-undrawn h (BarModule.weather s r) set e =
      handle_draws _ _ _ (λ k f. absurd (ground (arith, set))) e
  press-undrawn h (BarModule.datetime s) set e =
      handle_draws _ _ _ (λ k f. absurd (ground (arith, set))) e
  press-undrawn h (BarModule.network s r) set e =
      handle_draws _ _ _ (λ k f. absurd (ground (arith, set))) e
  press-undrawn h (BarModule.timer s) set e =
      handle_draws _ _ _ (λ k f. rw (timer_undrawn k s (set_and set f)) refl) e
  press-undrawn h (BarModule.stopwatch s) set e =
      handle_draws _ _ _ (λ k f. absurd (ground (arith, set))) e
  press-undrawn h (BarModule.space s r) set e =
      handle_draws _ _ _ (λ k f. absurd (ground (arith, set))) e
  press-undrawn h (BarModule.resources s r) set e = refl

  abbrev kept : BarModule W → Bool × Bool
  kept m = traits (base m)

  clock_toggled :
      (h : Datetime.Action) (s : Datetime.Datetime)
      → traits (Datetime.perform h (pos a.wall) a.tm s).base ≡ traits s.base
  unfolding Datetime.perform set_seconds_per_update
  clock_toggled Datetime.Action.toggle_hour s = clock_kept l a _

  dunst_toggled :
      (h : Notifications.Action) (s : Notifications.Notifications)
      → (Notifications.perform h l.atoi a.dunst s).base ≡ s.base
  unfolding Notifications.perform Notifications.update Notifications.update_visuals
      Notifications.update_state
  dunst_toggled Notifications.Action.toggle_notifications s = ground arith

  timer_performed :
      (h : Clock.Action) (s : Clock.Timer)
      → (Handlers.perform a.timer_clock (pos a.wall) h s).render_set ≡ s.render_set
  unfolding Handlers.perform Handlers.play_pause Handlers.toggled Handlers.reset Handlers.cleared
      Handlers.toggle_details Handlers.adjust_time Handlers.adjusted photonbar.Timer.refresh
  timer_performed Clock.Action.play_pause s =
      ground (arith, timer_kept l a (Handlers.toggled a.timer_clock (pos a.wall) s))
  timer_performed Clock.Action.reset s =
      ground (arith, timer_kept l a (Handlers.cleared a.timer_clock (pos a.wall) s))
  timer_performed Clock.Action.toggle_details s =
      ground (arith, timer_kept l a (record s { show_details = not s.show_details }))
  timer_performed (Clock.Action.adjust ms) s =
      ground (arith, timer_kept l a (Handlers.adjusted a.timer_clock (pos a.wall) ms s))

  stopwatch_performed :
      (h : Stopwatch.Action) (s : Stopwatch.Stopwatch)
      → (Stopwatch.perform a.stopwatch_clock (pos a.wall) h s).render_set ≡ s.render_set
  unfolding Stopwatch.perform Stopwatch.play_pause Stopwatch.toggled Stopwatch.reset
      Stopwatch.toggle_details Stopwatch.refresh
  stopwatch_performed Stopwatch.Action.press_play s =
      ground (arith, stopwatch_kept l a (Stopwatch.toggled a.stopwatch_clock (pos a.wall) s))
  stopwatch_performed Stopwatch.Action.press_reset s = ground (
    arith,
    stopwatch_kept l a
        (record s { is_running = false; is_paused = false; accumulated_pause_time = pos 0 }),
  )
  stopwatch_performed Stopwatch.Action.press_details s =
      ground (arith, stopwatch_kept l a (record s { show_details = not s.show_details }))

  pub press-traits :
      (h : Action) (m : BarModule W) → traits (base (press l a h m).0) ≡ traits (base m)
  unfolding press base
  press-traits h (BarModule.workspace s) = handle_keeps kept _ _ _ (λ k. refl)
  press-traits h (BarModule.audio s) =
      handle_keeps kept _ _ _ (λ k. rw (audio_performed l a k s) refl)
  press-traits h (BarModule.battery s r) = refl
  press-traits h (BarModule.notifications s) =
      handle_keeps kept _ _ _ (λ k. rw (dunst_toggled k s) refl)
  press-traits h (BarModule.weather s r) = handle_keeps kept _ _ _ (λ k. refl)
  press-traits h (BarModule.datetime s) = handle_keeps kept _ _ _ (λ k. clock_toggled k s)
  press-traits h (BarModule.network s r) = handle_keeps kept _ _ _ (λ k. refl)
  press-traits h (BarModule.timer s) = handle_keeps kept _ _ _ (λ k. rw (timer_performed k s) refl)
  press-traits h (BarModule.stopwatch s) =
      handle_keeps kept _ _ _ (λ k. rw (stopwatch_performed k s) refl)
  press-traits h (BarModule.space s r) = handle_keeps kept _ _ _ (λ k. refl)
  press-traits h (BarModule.resources s r) = refl
