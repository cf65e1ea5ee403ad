-- ===== src/Bars/Rate.antt =====
-- How often the modules of the bars are updated, over rounds whose `select` times out.
use photonbar.Common.{
  ℕ, ◌+◌, ◌*◌, ◌≤◌, ◌≡◌, refl, ◌∙◌, ◌⊎◌, Bool, true, false, List, [], ◌∷◌, arith, inl, inr,
  Bool-cases, All, length,
}
use photonbar.Common.Int.{pos, ◌+ℤ◌}
use photonbar.Module.{should_update, check_and_update}
use photonbar.Module.Due.{should_update_iff}
use photonbar.Battery.{Battery}
use photonbar.Bars.Kept.{audio_kept}
use photonbar.Bars.{BarModule, Answers, Libraries, base, update, timeouts}

-- The classes whose `update` writes down the time at which it ran.
unfoldable pub is_stamped : {W : Type 0} → BarModule W → Bool
is_stamped (BarModule.workspace s) = false
is_stamped (BarModule.audio s) = false
is_stamped (BarModule.battery s r) = true
is_stamped (BarModule.notifications s) = false
is_stamped (BarModule.weather s r) = true
is_stamped (BarModule.datetime s) = false
is_stamped (BarModule.network s r) = true
is_stamped (BarModule.timer s) = true
is_stamped (BarModule.stopwatch s) = true
is_stamped (BarModule.space s r) = true
is_stamped (BarModule.resources s r) = true

-- The classes whose `update` leaves `Module::lastUpdate` alone: the one of the audio module is a
-- field of its own that hides it.
unfoldable pub is_unstamped : {W : Type 0} → BarModule W → Bool
is_unstamped (BarModule.workspace s) = false
is_unstamped (BarModule.audio s) = true
is_unstamped (BarModule.battery s r) = false
is_unstamped (BarModule.notifications s) = true
is_unstamped (BarModule.weather s r) = false
is_unstamped (BarModule.datetime s) = false
is_unstamped (BarModule.network s r) = false
is_unstamped (BarModule.timer s) = false
is_unstamped (BarModule.stopwatch s) = false
is_unstamped (BarModule.space s r) = false
is_unstamped (BarModule.resources s r) = false

due_reached :
    {W : Type 0} (wall : ℕ) (m : BarModule W) (seconds last : ℕ)
    → (base m).auto_update ≡ false
    → (base m).seconds_per_update ≡ pos seconds
    → (base m).last_update ≡ pos last
    → should_update (pos wall) (base m) ≡ true
    → last + seconds ≤ wall
unfolding ◌+ℤ◌
due_reached wall m seconds last auto every at due =
    let reached = (should_update_iff (pos wall) (base m) auto).0 due in
    ground (arith, reached, every, at)

is_due :
    {W : Type 0} (wall : ℕ) (m : BarModule W) (seconds last : ℕ)
    → (base m).auto_update ≡ false
    → (base m).seconds_per_update ≡ pos seconds
    → (base m).last_update ≡ pos last
    → last + seconds ≤ wall
    → should_update (pos wall) (base m) ≡ true
unfolding ◌+ℤ◌
is_due wall m seconds last auto every at reached =
    (should_update_iff (pos wall) (base m) auto).1 (ground (arith, every, at, reached))

module _ {W : Type 0} (l : Libraries W) where
  battery_stamps :
      (a : Answers W) (s : Battery W)
      → (photonbar.Battery.update l.floats a.supply (pos a.wall) s).0.last_update ≡ pos a.wall
  unfolding photonbar.Battery.update
  battery_stamps a s = ground arith

  update-stamps :
      (a : Answers W) (m : BarModule W)
      → is_stamped m ≡ true
      → ((base (update l a m)).last_update ≡ pos a.wall)
        × ((base (update l a m)).seconds_per_update ≡ (base m).seconds_per_update)
        × ((base (update l a m)).auto_update ≡ false)
        × (is_stamped (update l a m) ≡ true)
  unfolding base update is_stamped photonbar.Weather.update photonbar.Ping.update
      photonbar.Timer.update photonbar.Timer.show photonbar.Stopwatch.update photonbar.Space.update
      photonbar.Resources.update
  update-stamps a (BarModule.battery s r) e = (battery_stamps a s, refl, refl, refl)
  update-stamps a (BarModule.weather s r) e = (refl, refl, refl, refl)
  update-stamps a (BarModule.network s r) e = (refl, refl, refl, refl)
  update-stamps a (BarModule.timer s) e = (refl, refl, refl, refl)
  update-stamps a (BarModule.stopwatch s) e = (refl, refl, refl, refl)
  update-stamps a (BarModule.space s r) e = (refl, refl, refl, refl)
  update-stamps a (BarModule.resources s r) e = (refl, refl, refl, refl)
  update-stamps a (BarModule.workspace s) e = absurd (ground arith)
  update-stamps a (BarModule.audio s) e = absurd (ground arith)
  update-stamps a (BarModule.notifications s) e = absurd (ground arith)
  update-stamps a (BarModule.datetime s) e = absurd (ground arith)

  update-unstamped :
      (a : Answers W) (m : BarModule W)
      → is_unstamped m ≡ true
      → (base (update l a m) ≡ base m) × (is_unstamped (update l a m) ≡ true)
  unfolding base update is_unstamped photonbar.Notifications.update
      photonbar.Notifications.update_visuals photonbar.Notifications.update_state
  update-unstamped a (BarModule.audio s) e = (audio_kept l a s, refl)
  update-unstamped a (BarModule.notifications s) e = (refl, refl)
  update-unstamped a (BarModule.workspace s) e = absurd (ground arith)
  update-unstamped a (BarModule.battery s r) e = absurd (ground arith)
  update-unstamped a (BarModule.weather s r) e = absurd (ground arith)
  update-unstamped a (BarModule.datetime s) e = absurd (ground arith)
  update-unstamped a (BarModule.network s r) e = absurd (ground arith)
  update-unstamped a (BarModule.timer s) e = absurd (ground arith)
  update-unstamped a (BarModule.stopwatch s) e = absurd (ground arith)
  update-unstamped a (BarModule.space s r) e = absurd (ground arith)
  update-unstamped a (BarModule.resources s r) e = absurd (ground arith)

  -- Over rounds that time out one after another, so that no handler runs between them, a module in
  -- whose `update` the time is written down is updated by them at most once in each of its
  -- intervals: `n` updates take `n` intervals behind the last one before.
  pub timeouts-rate :
      (rounds : List (Answers W)) (m : BarModule W) (seconds last end : ℕ)
      → is_stamped m ≡ true
      → (base m).auto_update ≡ false
      → (base m).seconds_per_update ≡ pos seconds
      → (base m).last_update ≡ pos last
      → All (λ a. a.wall ≤ end) rounds
      → ((timeouts l rounds m).1 ≡ 0) ⊎ (last + (timeouts l rounds m).1 * seconds ≤ end)
  unfolding timeouts check_and_update
  timeouts-rate [] m seconds last end is auto every at before = inl refl
  timeouts-rate (a ∷ later) m seconds last end is auto every at before =
      elim (Bool-cases (should_update (pos a.wall) (base m))) [
        | inr early ↦ rw early (timeouts-rate later m seconds last end is auto every at before.1)
        | inl due ↦
            let stamp = update-stamps a m is in
            let reached = due_reached a.wall m seconds last auto every at due in
            rw due
              (elim (timeouts-rate later (update l a m) seconds a.wall end stamp.3 stamp.2
                (stamp.1 ∙ every) stamp.0 before.1) [
                  | inl quiet ↦ inr (rw quiet (omega (arith, reached, before.0)))
                  | inr more ↦ inr (omega (arith, reached, more))
                ])
      ]

  -- A module in whose `update` the time is not written down is updated at every one of these
  -- rounds from its interval behind its last update on, however short the rounds are.
  pub timeouts-always :
      (rounds : List (Answers W)) (m : BarModule W) (seconds last : ℕ)
      → is_unstamped m ≡ true
      → (base m).auto_update ≡ false
      → (base m).seconds_per_update ≡ pos seconds
      → (base m).last_update ≡ pos last
      → All (λ a. last + seconds ≤ a.wall) rounds
      → (timeouts l rounds m).1 ≡ length rounds
  unfolding timeouts check_and_update
  timeouts-always [] m seconds last is auto every at reached = refl
  timeouts-always (a ∷ later) m seconds last is auto every at reached =
      let same = update-unstamped a m is in
      let due = is_due a.wall m seconds last auto every at reached.0 in
      rw due (
        omega (
          arith,
          timeouts-always later (update l a m) seconds last same.1 (rw same.0 auto)
              (rw same.0 every) (rw same.0 at) reached.1,
        ))
