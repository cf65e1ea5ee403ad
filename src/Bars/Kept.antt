-- ===== src/Bars/Kept.antt =====
-- What updates, initialisations and handlers keep of a module of the bars.
use photonbar.Common.{ℕ, ◌≡◌, refl, ◌||◌, Option, none, some, List, [], ◌∷◌, arith}
use photonbar.Common.Int.{pos}
use photonbar.Module.{traits}
use photonbar.Workspace.{
  Workspace, Reply, add_element, add_elements, initialize_elements, clear_elements, rewrite,
  write_at, update_elements, overflows,
}
use photonbar.Timer.Clock.{Timer}
use photonbar.Stopwatch.{Stopwatch}
use photonbar.Datetime.{Datetime}
use photonbar.Audio.{Audio, redraw, perform, request_next, update_element, refresh_cache}
use photonbar.Audio.Sinks.{receive_lem}
use photonbar.Bars.{BarModule, Answers, Libraries, base, update, initialize}

add_elements-base : (rs : List Reply) (w : Workspace) → (add_elements rs w).base ≡ w.base
unfolding add_element
add_elements-base [] w = refl
add_elements-base (r ∷ rs) w = add_elements-base rs (add_element r w)

pub initialize_elements-base :
    (answer : Option (List Reply)) (w : Workspace) → (initialize_elements answer w).base ≡ w.base
unfolding initialize_elements clear_elements
initialize_elements-base none w = refl
initialize_elements-base (some rs) w = add_elements-base rs (clear_elements w)

rewrite-base : (ks : List ℕ) (rs : List Reply) (w : Workspace) → (rewrite ks rs w).base ≡ w.base
rewrite-base [] rs w = refl
rewrite-base (k ∷ ks) [] w = refl
rewrite-base (k ∷ ks) (r ∷ rs) w =
    rewrite-base ks rs
      (record w { heap = write_at k r w.heap; out_of_bounds = w.out_of_bounds || overflows r })

update_elements-base :
    (first again : Option (List Reply)) (w : Workspace)
    → (update_elements first again w).base ≡ w.base
unfolding update_elements
update_elements-base none again w = refl
update_elements-base (some rs) again w = ground (
  arith,
  rewrite-base w.workspace_elements rs w,
  initialize_elements-base again (rewrite w.workspace_elements rs w),
)

module _ {W : Type 0} (l : Libraries W) (a : Answers W) where
  audio_cached : (s : Audio) → (refresh_cache l.volume_norm a.sinks s).base ≡ s.base
  unfolding refresh_cache
  audio_cached s =
      (receive_lem l.volume_norm a.sinks.sinks (record s {
        all_sinks = [];
        default_sink_name = elim a.sinks.default_sink_name [
          | none ↦ s.default_sink_name
          | some n ↦ n
        ];
      })).3

  pub audio_kept :
      (s : Audio) → (photonbar.Audio.update l.volume_norm a.steady a.sinks s).base ≡ s.base
  unfolding photonbar.Audio.update update_element
  audio_kept s = ground (arith, audio_cached s)

  audio_redrawn : (s : Audio) → (redraw l.volume_norm a.sinks s).base ≡ s.base
  unfolding redraw update_element
  audio_redrawn s = ground (arith, audio_cached s)

  pub audio_performed :
      (h : photonbar.Audio.Action) (s : Audio) → (perform l.volume_norm h a.sinks s).base ≡ s.base
  unfolding perform request_next
  audio_performed photonbar.Audio.Action.toggle_mute s = audio_redrawn _
  audio_performed photonbar.Audio.Action.cycle_sinks s =
      ground (arith, audio_redrawn (request_next s))
  audio_performed (photonbar.Audio.Action.adjust_volume delta) s = audio_redrawn _

  pub clock_kept :
      (s : Datetime) → traits (photonbar.Datetime.update (pos a.wall) a.tm s).base ≡ traits s.base
  unfolding photonbar.Datetime.update
  clock_kept s = ground arith

  pub timer_kept :
      (s : Timer) → (photonbar.Timer.update a.timer_clock (pos a.wall) s).render_set ≡ s.render_set
  unfolding photonbar.Timer.update photonbar.Timer.show photonbar.Timer.check_timer_alert
      photonbar.Timer.rearm_alert photonbar.Timer.send_alert photonbar.Timer.apply_colors
  timer_kept s = ground arith

  pub stopwatch_kept :
      (s : Stopwatch)
      → (photonbar.Stopwatch.update a.stopwatch_clock (pos a.wall) s).render_set ≡ s.render_set
  unfolding photonbar.Stopwatch.update photonbar.Stopwatch.apply_colors
  stopwatch_kept s = ground arith

  pub update-traits : (m : BarModule W) → traits (base (update l a m)) ≡ traits (base m)
  unfolding base update photonbar.Notifications.update photonbar.Notifications.update_visuals
      photonbar.Notifications.update_state
  update-traits (BarModule.workspace s) =
      rw (update_elements-base a.workspaces a.workspaces_again s) refl
  update-traits (BarModule.audio s) = rw (audio_kept s) refl
  update-traits (BarModule.battery s r) = refl
  update-traits (BarModule.notifications s) = refl
  update-traits (BarModule.weather s r) = refl
  update-traits (BarModule.datetime s) = clock_kept s
  update-traits (BarModule.network s r) = refl
  update-traits (BarModule.timer s) = rw (timer_kept s) refl
  update-traits (BarModule.stopwatch s) = rw (stopwatch_kept s) refl
  update-traits (BarModule.space s r) = refl
  update-traits (BarModule.resources s r) = refl

  pub initialize-traits : (m : BarModule W) → traits (base (initialize l a m).0) ≡ traits (base m)
  unfolding base initialize photonbar.Notifications.update photonbar.Notifications.update_visuals
      photonbar.Notifications.update_state photonbar.Workspace.initialize
      photonbar.Workspace.subscribe
  initialize-traits (BarModule.workspace s) = refl
  initialize-traits (BarModule.audio s) = refl
  initialize-traits (BarModule.battery s r) = refl
  initialize-traits (BarModule.notifications s) = refl
  initialize-traits (BarModule.weather s r) = refl
  initialize-traits (BarModule.datetime s) = refl
  initialize-traits (BarModule.network s r) = refl
  initialize-traits (BarModule.timer s) = refl
  initialize-traits (BarModule.stopwatch s) = refl
  initialize-traits (BarModule.space s r) = refl
  initialize-traits (BarModule.resources s r) = refl
