-- ===== src/Bars/Dirty.antt =====
-- The flag `dirtyContent` (barElement.h), without which bar.h's parseElementContent keeps what it has
-- parsed before, behind `update` of the modules.
use photonbar.Common.{◌≡◌, ◌⊎◌, refl, Bool, true, false, List, [], ◌∷◌, arith, inl, inr, Bool-cases}
use photonbar.Common.Int.{pos, ltb_ℤ}
use photonbar.BarElement.{BarElement, set_text}
use photonbar.Bars.{BarModule, Answers, Libraries, update}
use photonbar.Bars.Press.{Action}
use photonbar.Bars.Elements.{get_elements, with_events}
use photonbar.Audio.{Audio}
use photonbar.Battery.{Battery}
use photonbar.Datetime.{Datetime, is_shown}
use photonbar.Common.Steady.{ms_between}

-- The elements of all modules but the workspaces', which makes and deletes them, are the same
-- objects always.
unfoldable pub is_fixed : {W : Type 0} → BarModule W → Bool
is_fixed (BarModule.workspace s) = false
is_fixed (BarModule.audio s) = true
is_fixed (BarModule.battery s r) = true
is_fixed (BarModule.notifications s) = true
is_fixed (BarModule.weather s r) = true
is_fixed (BarModule.datetime s) = true
is_fixed (BarModule.network s r) = true
is_fixed (BarModule.timer s) = true
is_fixed (BarModule.stopwatch s) = true
is_fixed (BarModule.space s r) = true
is_fixed (BarModule.resources s r) = true

-- As many elements, each marked for parsing or what it was.
abbrev pub Marked : List (BarElement Action) → List (BarElement Action) → Type 0
Marked [] [] = Unit
Marked [] (n ∷ ns) = true ≡ false
Marked (o ∷ os) [] = true ≡ false
Marked (o ∷ os) (n ∷ ns) = ((n.dirty_content ≡ true) ⊎ (n ≡ o)) × Marked os ns

module _ {W : Type 0} (l : Libraries W) (a : Answers W) where
  audio_marked :
      (s : Audio)
      → let next = photonbar.Audio.update l.volume_norm a.steady a.sinks s in
        (next.element.dirty_content ≡ true) ⊎ (next ≡ s)
  unfolding photonbar.Audio.update photonbar.Audio.update_element
  audio_marked s = elim (Bool-cases (ltb_ℤ (ms_between s.last_update a.steady) (pos 250))) [
    | inl early ↦ inr (rw early refl)
    | inr late ↦ inl (rw late refl)
  ]

  clock_marked :
      (s : Datetime)
      → let next = photonbar.Datetime.update (pos a.wall) a.tm s in
        (next.element.dirty_content ≡ true) ⊎ (next ≡ s)
  unfolding photonbar.Datetime.update photonbar.Datetime.copy_content
  clock_marked s = elim (Bool-cases (is_shown a.tm s)) [
    | inl same ↦ inr (rw same refl)
    | inr new ↦ inl (rw new refl)
  ]

  battery_marked :
      (s : Battery W)
      → let next = (photonbar.Battery.update l.floats a.supply (pos a.wall) s).0 in
        ((next.icon.dirty_content ≡ true) × (next.text.dirty_content ≡ true))
        ⊎ ((next.icon ≡ s.icon) × (next.text ≡ s.text))
  unfolding photonbar.Battery.update photonbar.Battery.update_visuals photonbar.Battery.read_battery
      photonbar.Battery.check_battery_alert set_text
  battery_marked s =
      elim (Bool-cases
        (ltb_ℤ (pos 0) (photonbar.Battery.read_battery l.floats a.supply s).energy_full)) [
          | inl full ↦ inl (ground arith)
          | inr empty ↦ inr (ground arith)
        ]

  -- An update of any module but the workspaces' marks each of its elements for parsing or leaves it
  -- as it was, so that the next `feed` parses every new text.
  pub update-Marked :
      (m : BarModule W) → is_fixed m ≡ true → Marked (get_elements m) (get_elements (update l a m))
  unfolding is_fixed update get_elements with_events set_text photonbar.Weather.update
      photonbar.Weather.generate_buffer photonbar.Ping.update photonbar.Timer.update
      photonbar.Timer.show photonbar.Stopwatch.update photonbar.Space.update
      photonbar.Resources.update photonbar.Resources.show_usage photonbar.Notifications.update
      photonbar.Notifications.update_visuals
  update-Marked (BarModule.workspace s) e = absurd (ground arith)
  update-Marked (BarModule.audio s) e = elim (audio_marked s) [
    | inl marked ↦ (inl marked, tt)
    | inr same ↦ (inr (rw same refl), tt)
  ]
  update-Marked (BarModule.battery s r) e = elim (battery_marked s) [
    | inl marked ↦ (inl marked.0, (inl marked.1, tt))
    | inr same ↦ (inr (rw same.0 refl), (inr (rw same.1 refl), tt))
  ]
  update-Marked (BarModule.notifications s) e = (inl refl, tt)
  update-Marked (BarModule.weather s r) e = (inl refl, tt)
  update-Marked (BarModule.datetime s) e = elim (clock_marked s) [
    | inl marked ↦ (inl marked, tt)
    | inr same ↦ (inr (rw same refl), tt)
  ]
  update-Marked (BarModule.network s r) e = (inl refl, tt)
  update-Marked (BarModule.timer s) e =
      (inl refl, (inl refl, (inl refl, (inl refl, (inl refl, tt)))))
  update-Marked (BarModule.stopwatch s) e = (inl refl, (inl refl, tt))
  update-Marked (BarModule.space s r) e = (inl refl, tt)
  update-Marked (BarModule.resources s r) e = (inl refl, (inl refl, (inl refl, tt)))
