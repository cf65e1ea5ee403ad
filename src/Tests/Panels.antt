-- ===== src/Tests/Panels.antt =====
-- The workspaces, the sinks and the notifications (modules/workspace.h, modules/audio.h,
-- modules/notifications.h) on small answers.
use photonbar.Common.{◌-◌, ◌≡◌, refl, true, false, none, some, [], ◌∷◌, arith, ascii, Bytes}
use photonbar.Common.Int.{ℤ, pos, negsuc, eqb_ℤ}
use photonbar.Workspace
use photonbar.Workspace.{
  Workspace, Reply, Reads, new_workspace, initialize_elements, update_elements, handle_i3_events,
}
use photonbar.Workspace.Owned.{IsOwned, new_workspace-IsOwned, update_elements-IsOwned}
use photonbar.Workspace.Names.{shown, handlers, update_elements-same_count}
use photonbar.Workspace.Events.{handle_i3_events_lem}
use photonbar.Audio.{
  Audio, Answers, RawSink, Upower, SinkInfo, new_audio, read_volume, write_volume,
}
use photonbar.Audio.Volume.{read_volume-write_volume}
use photonbar.Notifications.{Dunst}

abbrev web : Reply
web = record { name = ascii "1"; focused = true }

abbrev mail : Reply
mail = record { name = ascii "2"; focused = false }

abbrev notes : Reply
notes = record { name = ascii "3"; focused = true }

abbrev started : Workspace
started = new_workspace (pos 4) (some (web ∷ mail ∷ []))

started-IsOwned : IsOwned started
started-IsOwned = new_workspace-IsOwned (pos 4) (some (web ∷ mail ∷ []))

update_elements-IsOwned_example :
    IsOwned (update_elements (some (web ∷ [])) (some (notes ∷ [])) started)
update_elements-IsOwned_example =
    update_elements-IsOwned (some (web ∷ [])) (some (notes ∷ [])) started started-IsOwned

-- The workspace 2 goes and 3 comes: the second element shows 3 and switches to 2.
update_elements-same_count_example :
    (shown (update_elements (some (web ∷ notes ∷ [])) none started).heap
      ≡ (ascii " 1 " ∷ ascii " 3 " ∷ []))
    × (handlers (update_elements (some (web ∷ notes ∷ [])) none started).heap
        ≡ handlers started.heap)
unfolding new_workspace initialize_elements Workspace.add_element Workspace.clear_elements
update_elements-same_count_example =
    update_elements-same_count (web ∷ notes ∷ []) none started started-IsOwned
      ((omega arith), ((omega arith), tt)) refl

abbrev closed : Reads
closed = record { buffers = ascii "{}" ∷ []; at_end = true }

handle_i3_events_lem_example :
    let result = handle_i3_events true closed (pos 8) none none started in
    (started.i3_fd ≡ negsuc 0 → result ≡ (started, false))
    × (true ≡ false → result ≡ (started, false))
    × (result.1 ≡ true → result.0 ≡ update_elements none none started)
    × (result.1 ≡ false
        → (result.0.heap ≡ started.heap)
          × (true ≡ true
              → eqb_ℤ started.i3_fd (negsuc 0) ≡ false
              → closed.at_end ≡ true
              → result.0.i3_fd ≡ pos 8)
          × (closed.at_end ≡ false → result.0 ≡ started))
handle_i3_events_lem_example = handle_i3_events_lem true closed (pos 8) none none started

-- Two steps up from 50 percent arrive at 51.
read_volume-write_volume_example : read_volume 65536 (write_volume 65536 52) ≡ pos 51
read_volume-write_volume_example = read_volume-write_volume 65536 52 refl (omega arith)

abbrev speaker : SinkInfo
speaker = record {
  name = ascii "alsa_output";
  index = 0;
  volume = pos 50;
  is_muted = false;
  is_bluetooth = false;
  battery_level = negsuc 0;
}

abbrev headset : SinkInfo
headset = record {
  name = ascii "bluez_output";
  index = 1;
  volume = pos 30;
  is_muted = true;
  is_bluetooth = true;
  battery_level = pos 80;
}

abbrev playing : Audio
playing = record (new_audio speaker) {
  current_sink = headset;
  all_sinks = speaker ∷ headset ∷ [];
  last_battery_check = 1000;
  cached_battery = pos 80;
}

abbrev raw : RawSink
raw = record {
  name = ascii "alsa_output";
  index = 0;
  mute = false;
  average = 32768;
  now = 5;
  upower = Upower.no_pipe;
}

abbrev answers : Answers
answers = record { default_sink_name = some (ascii "alsa_output"); sinks = raw ∷ [] }

abbrev dunst : Dunst
dunst = record { is_paused = some (ascii "true"); count_waiting = none }

abbrev first_digit : Bytes → ℤ
first_digit [] = pos 0
first_digit (c ∷ cs) = pos (c - 48)
