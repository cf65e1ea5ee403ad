-- ===== src/Audio/Sinks.antt =====
-- The list of sinks, the current one and the cached battery level (modules/audio.h).
use photonbar.Common.{
  ℕ, ◌+◌, ◌%◌, ◌<◌, ◌≤◌, ◌≡◌, ◌∙◌, ◌≢◌, refl, ap, arith, Bool, true, false, not, ◌||◌, none, some,
  List, [], ◌∷◌, ◌++◌, if◌then◌else◌, append_assoc, append-nil, Bytes, bytes_eq, bytes_eq_iff,
  length, get_elem?,
}
use photonbar.Common.Int.{ℤ, negsuc, div_ℤ, eqb_ℤ_iff}
use photonbar.Common.Steady.{ms_between_le}
use photonbar.Audio.{
  Audio, Answers, RawSink, Upower, Action, Effect, SinkInfo, perform, redraw, battery_fresh,
  get_bluetooth_battery_level, update_element, refresh_cache, receive, sink_info_callback, emit,
  request_next, next_sink, index_of, write_volume, new_volume,
}

-- The names of sinks, and those of PulseAudio's answer.
abbrev pub names : List SinkInfo → List Bytes
names [] = []
names (s ∷ ss) = s.name ∷ names ss

abbrev pub raw_names : List RawSink → List Bytes
raw_names [] = []
raw_names (i ∷ is) = i.name ∷ raw_names is

abbrev pub member : Bytes → List Bytes → Bool
member n [] = false
member n (m ∷ ms) = bytes_eq n m || member n ms

names_append : (ss ts : List SinkInfo) → names (ss ++ ts) ≡ names ss ++ names ts
names_append [] ts = refl
names_append (s ∷ ss) ts = ap (◌∷◌ s.name) (names_append ss ts)

-- A battery level that is known and younger than 30 seconds is given again: what `upower` would
-- say does not matter, and the cache stays as it is.
battery_cached :
    (now : ℕ) (upower : Upower) (a : Audio)
    → a.cached_battery ≢ negsuc 0
    → a.last_battery_check ≤ now
    → now < a.last_battery_check + 30000000000
    → get_bluetooth_battery_level now upower a ≡ (a, a.cached_battery)
unfolding get_bluetooth_battery_level battery_fresh div_ℤ
battery_cached now upower a known after soon =
    rw (ms_between_le a.last_battery_check now after)
      (ground (arith, known, soon, eqb_ℤ_iff a.cached_battery (negsuc 0)))

abbrev pub Quiet : Audio → Audio → Type 0
Quiet a b =
    (b.base ≡ a.base)
    × (b.default_sink_name ≡ a.default_sink_name)
    × (b.effects ≡ a.effects)
    × (b.all_sinks ≡ a.all_sinks)
    × (b.current_sink ≡ a.current_sink)

-- Asking for a battery level changes nothing but the cache.
battery-Quiet :
    (now : ℕ) (upower : Upower) (a : Audio) → Quiet a (get_bluetooth_battery_level now upower a).0
unfolding get_bluetooth_battery_level
battery-Quiet now upower a = ground arith

-- An answer that names the default sink.
abbrev pub says : Bytes → List RawSink → Answers
says server sinks = record { default_sink_name = some server; sinks = sinks }

module _ (volume_norm : ℕ) where
  callback_lem :
      (i : RawSink) (a : Audio)
      → (names (sink_info_callback volume_norm i a).all_sinks ≡ names a.all_sinks ++ (i.name ∷ []))
        × ((sink_info_callback volume_norm i a).default_sink_name ≡ a.default_sink_name)
        × (bytes_eq a.default_sink_name i.name ≡ true
            → (sink_info_callback volume_norm i a).current_sink.name ≡ a.default_sink_name)
        × (bytes_eq a.default_sink_name i.name ≡ false
            → (sink_info_callback volume_norm i a).current_sink ≡ a.current_sink)
        × ((sink_info_callback volume_norm i a).base ≡ a.base)
        × ((sink_info_callback volume_norm i a).effects ≡ a.effects)
  unfolding sink_info_callback
  callback_lem i a =
      grind (
        arith,
        battery-Quiet i.now i.upower a,
        bytes_eq_iff a.default_sink_name i.name,
        names_append,
      )

  pub receive_lem :
      (is : List RawSink) (a : Audio)
      → (names (receive volume_norm is a).all_sinks ≡ names a.all_sinks ++ raw_names is)
        × (member a.default_sink_name (raw_names is) ≡ true
            → (receive volume_norm is a).current_sink.name ≡ a.default_sink_name)
        × (member a.default_sink_name (raw_names is) ≡ false
            → (receive volume_norm is a).current_sink ≡ a.current_sink)
        × ((receive volume_norm is a).base ≡ a.base)
        × ((receive volume_norm is a).effects ≡ a.effects)
  receive_lem [] a = ground (arith, append-nil (names a.all_sinks))
  receive_lem (i ∷ is) a =
      let rest = receive_lem is (sink_info_callback volume_norm i a) in
      let one = callback_lem i a in
      ground (arith, rest, one, append_assoc (names a.all_sinks) (i.name ∷ []) (raw_names is))

  -- A refresh lists the sinks in the order of PulseAudio's answer, and makes the default sink the
  -- current one, if it is listed.
  refresh_cache-sinks :
      (server : Bytes) (sinks : List RawSink) (a : Audio)
      → member server (raw_names sinks) ≡ true
      → (names (refresh_cache volume_norm (says server sinks) a).all_sinks ≡ raw_names sinks)
        × ((refresh_cache volume_norm (says server sinks) a).current_sink.name ≡ server)
  unfolding refresh_cache
  refresh_cache-sinks server sinks a listed =
      let r = receive_lem sinks (record a { all_sinks = []; default_sink_name = server }) in
      (r.0, r.1 listed)

  -- A default sink that is not listed leaves the old current sink in place, gone or not.
  refresh_cache_unlisted :
      (server : Bytes) (sinks : List RawSink) (a : Audio)
      → member server (raw_names sinks) ≡ false
      → (refresh_cache volume_norm (says server sinks) a).current_sink ≡ a.current_sink
  unfolding refresh_cache
  refresh_cache_unlisted server sinks a listed =
      (receive_lem sinks (record a { all_sinks = []; default_sink_name = server })).2 listed

  redraw_effects :
      (answers : Answers) (a : Audio)
      → (redraw volume_norm answers a).effects
        ≡ a.effects ++ (if a.base.render_set then Effect.rendered ∷ [] else [])
  unfolding redraw refresh_cache update_element
  redraw_effects answers a =
      let fresh : Audio = record a {
        all_sinks = [];
        default_sink_name = elim answers.default_sink_name [
          | none ↦ a.default_sink_name
          | some s ↦ s
        ];
      } in
      ground (arith, receive_lem answers.sinks fresh, append-nil a.effects)

  -- Toggling the mute and changing the volume each send one request, for the current sink, and
  -- draw the bar once if it may be drawn; a volume is never asked for below zero.
  perform-requests :
      (answers : Answers) (delta : ℤ) (a : Audio)
      → ((perform volume_norm Action.toggle_mute answers a).effects
          ≡ a.effects
            ++ (Effect.set_sink_mute a.current_sink.index (not a.current_sink.is_muted)
                ∷ (if a.base.render_set then Effect.rendered ∷ [] else [])))
        × ((perform volume_norm (Action.adjust_volume delta) answers a).effects
            ≡ a.effects
              ++ (Effect.set_sink_volume a.current_sink.index
                    (write_volume volume_norm (new_volume delta a))
                  ∷ (if a.base.render_set then Effect.rendered ∷ [] else [])))
  unfolding perform
  perform-requests answers delta a =
      let mute = Effect.set_sink_mute a.current_sink.index (not a.current_sink.is_muted) in
      let volume =
        Effect.set_sink_volume a.current_sink.index
          (write_volume volume_norm (new_volume delta a)) in
      let drawn = if a.base.render_set then Effect.rendered ∷ [] else [] in
      (
        redraw_effects answers (emit mute a) ∙ append_assoc a.effects (mute ∷ []) drawn,
        redraw_effects answers (emit volume a) ∙ append_assoc a.effects (volume ∷ []) drawn,
      )

  -- With two sinks or more, and the current one among them, cycling asks for the sink behind it,
  -- round to the front, and draws the bar once if it may be drawn.
  perform-cycle_sinks :
      (answers : Answers) (a : Audio) (i : ℕ) (s : SinkInfo)
      → 2 ≤ length a.all_sinks
      → index_of a.current_sink.name a.all_sinks ≡ some i
      → get_elem? a.all_sinks ((i + 1) % length a.all_sinks) ≡ some s
      → (perform volume_norm Action.cycle_sinks answers a).effects
        ≡ a.effects
          ++ (Effect.set_default_sink s.name
              ∷ (if a.base.render_set then Effect.rendered ∷ [] else []))
  unfolding perform request_next next_sink
  perform-cycle_sinks answers a i s many found here = ground (
    arith,
    redraw_effects answers (emit (Effect.set_default_sink s.name) a),
    append_assoc a.effects (Effect.set_default_sink s.name ∷ [])
        (if a.base.render_set then Effect.rendered ∷ [] else []),
  )
