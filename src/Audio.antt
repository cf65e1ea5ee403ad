-- ===== src/Audio.antt =====
-- modules/audio.h: the sinks of PulseAudio. What the server answers to a refresh is an argument,
-- with what the clock and `upower` say for each Bluetooth sink; the requests to the server and
-- the calls of the render function are a list of effects. The main loop of PulseAudio, which
-- waits for the answers, is left out but for the connection (Connect). `volume_norm` is PulseAudio's PA_VOLUME_NORM.
pub mod Volume
pub mod Sinks
pub mod Connect
use photonbar.Common.{
  ℕ, zero, suc, ◌+◌, ◌*◌, ◌/◌, ◌%◌, Bool, true, false, not, ◌&&◌, ◌||◌, Option, none, some, List,
  [], ◌∷◌, ◌++◌, ◌==◌, leb, if◌then◌else◌, Bytes, ascii, bytes_eq, length, get_elem?, set,
}
use photonbar.Common.Int.{ℤ, pos, negsuc, pos_part, ◌+ℤ◌, div_ℤ, eqb_ℤ, ltb_ℤ, leb_ℤ}
use photonbar.Common.Format.{to_int, format_d, store}
use photonbar.Common.Steady.{ms_between}
use photonbar.BarElement.{BarElement, EventType, new_element, set_event, set_color}
use photonbar.BatteryIcon.{get_battery_icon}
use photonbar.Module.{Module, new_module}
use photonbar.Palette.{default_color, muted_color}
use photonbar.Utf8.{encode_utf8}

pub record SinkInfo : Type 0 where
  pub name : Bytes
  pub index : ℕ
  pub volume : ℤ
  pub is_muted : Bool
  pub is_bluetooth : Bool
  pub battery_level : ℤ

pub data Action : Type 0 where
  toggle_mute cycle_sinks : Action
  adjust_volume : ℤ → Action

pub data Effect : Type 0 where
  set_sink_mute : ℕ → Bool → Effect
  set_default_sink : Bytes → Effect
  set_sink_volume : ℕ → ℕ → Effect
  rendered : Effect

pub record Audio : Type 0 where
  pub base : Module
  pub current_sink : SinkInfo
  pub all_sinks : List SinkInfo
  pub default_sink_name : Bytes
  pub element : BarElement Action
  pub last_update : ℕ
  pub last_battery_check : ℕ
  pub cached_battery : ℤ
  pub effects : List Effect

-- What `upower` prints through the pipe: the pipe fails, there is no line, or `atoi` of the line.
pub data Upower : Type 0 where
  no_pipe no_line : Upower
  level : ℤ → Upower

-- A sink as PulseAudio reports it, and what the callback reads meanwhile.
pub record RawSink : Type 0 where
  pub name : Bytes
  pub index : ℕ
  pub mute : Bool
  pub average : ℕ
  pub now : ℕ
  pub upower : Upower

pub record Answers : Type 0 where
  pub default_sink_name : Option Bytes
  pub sinks : List RawSink

-- The constructor; the numbers of the first `currentSink` are indeterminate, and so an argument.
unfoldable pub new_audio : SinkInfo → Audio
new_audio indeterminate = record {
  base = new_module (ascii "audio") false (pos 5);
  current_sink = record indeterminate { name = [] };
  all_sinks = [];
  default_sink_name = [];
  element = set_event EventType.scroll_down (Action.adjust_volume (negsuc 1)) (
      set_event EventType.scroll_up (Action.adjust_volume (pos 2)) (
        set_event EventType.click_right Action.cycle_sinks
          (set_event EventType.click_left Action.toggle_mute new_element)));
  last_update = 0;
  last_battery_check = 0;
  cached_battery = negsuc 0;
  effects = [];
}

abbrev pub is_prefix : Bytes → Bytes → Bool
is_prefix [] s = true
is_prefix (p ∷ ps) [] = false
is_prefix (p ∷ ps) (c ∷ cs) = p == c && is_prefix ps cs

-- `name.find(part) != std::string::npos`.
abbrev pub finds : Bytes → Bytes → Bool
finds part [] = is_prefix part []
finds part (c ∷ cs) = let rest = finds part cs in is_prefix part (c ∷ cs) || rest

-- Whether the cached level is known and younger than 30 seconds.
unfoldable pub battery_fresh : ℕ → Audio → Bool
battery_fresh now a =
    not (eqb_ℤ a.cached_battery (negsuc 0))
    && ltb_ℤ (div_ℤ (ms_between a.last_battery_check now) 1000) (pos 30)

unfoldable pub get_bluetooth_battery_level : ℕ → Upower → Audio → Audio × ℤ
get_bluetooth_battery_level now upower a =
    if battery_fresh now a then (a, a.cached_battery) else elim upower [
      | Upower.no_pipe ↦ (a, negsuc 0)
      | Upower.no_line ↦ (record a { last_battery_check = now }, a.cached_battery)
      | Upower.level n ↦ (record a { cached_battery = n; last_battery_check = now }, n)
    ]

unfoldable pub get_icon : Bytes → Bytes
get_icon name =
    if finds (ascii "bluez") name
    then encode_utf8 0xf02cb
    else if finds (ascii "alsa") name
    then encode_utf8 0xe638
    else 0xef ∷ 0x90 ∷ 0x9c ∷ []

unfoldable pub volume_text : SinkInfo → Bytes
volume_text s =
    let tail = get_icon s.name ++ (b' ' ∷ (format_d s.volume ++ (b'%' ∷ []))) in
    if s.is_bluetooth && leb_ℤ (pos 0) s.battery_level
    then get_battery_icon (pos_part s.battery_level) false ++ (b' ' ∷ tail)
    else tail

-- `snprintf` returns the length of the whole text, where a zero byte is then written.
unfoldable pub update_element : Audio → Audio
update_element a =
    let text = volume_text a.current_sink in
    let shown = record a.element {
      content = set (store 254 text a.element.content) (length text) 0;
      content_len = length text;
      dirty_content = true;
    } in
    record a {
      element = set_color (if a.current_sink.is_muted then muted_color else default_color) shown;
    }

abbrev pub emit : Effect → Audio → Audio
emit e a = record a { effects = a.effects ++ (e ∷ []) }

-- The index of the first sink with the name.
abbrev pub index_of : Bytes → List SinkInfo → Option ℕ
index_of name [] = none
index_of name (s ∷ ss) =
    let rest = index_of name ss in
    if bytes_eq s.name name then some 0 else elim rest [ none ↦ none | some i ↦ some (i + 1) ]

-- The index of the sink after the first that has the name, round to the front.
unfoldable pub next_sink : Bytes → List SinkInfo → Option ℕ
next_sink name ss = elim (index_of name ss) [ none ↦ none | some i ↦ some ((i + 1) % length ss) ]

unfoldable pub request_next : Audio → Audio
request_next a = elim (next_sink a.current_sink.name a.all_sinks) [
  | none ↦ a
  | some i ↦ elim (get_elem? a.all_sinks i) [
    | none ↦ a
    | some s ↦ emit (Effect.set_default_sink s.name) a
  ]
]

-- The volume that `adjustVolume` asks for, in percent and in PulseAudio's units; the quotient
-- of the double is exact enough for the conversion to round it down.
unfoldable pub new_volume : ℤ → Audio → ℕ
new_volume delta a = pos_part (a.current_sink.volume +ℤ delta)

module _ (volume_norm : ℕ) where
  -- `(int)avg * 100 / PA_VOLUME_NORM`: the norm is unsigned, and so is the division.
  unfoldable pub read_volume : ℕ → ℤ
  read_volume average = to_int (pos (average * 100 % 4294967296 / volume_norm))

  unfoldable pub sink_info_callback : RawSink → Audio → Audio
  sink_info_callback i a =
      let bluetooth = finds (ascii "bluez") i.name in
      let asked =
        if bluetooth then get_bluetooth_battery_level i.now i.upower a else (a, negsuc 0) in
      let b = asked.0 in
      let s : SinkInfo = record {
        name = i.name;
        index = i.index;
        volume = read_volume i.average;
        is_muted = i.mute;
        is_bluetooth = bluetooth;
        battery_level = asked.1;
      } in
      record b {
        all_sinks = b.all_sinks ++ (s ∷ []);
        current_sink = if bytes_eq b.default_sink_name i.name then s else b.current_sink;
      }

  abbrev pub receive : List RawSink → Audio → Audio
  receive [] a = a
  receive (i ∷ is) a = receive is (sink_info_callback i a)

  unfoldable pub refresh_cache : Answers → Audio → Audio
  refresh_cache answers a = receive answers.sinks (record a {
    all_sinks = [];
    default_sink_name = elim answers.default_sink_name [ none ↦ a.default_sink_name | some s ↦ s ];
  })

  unfoldable pub update : ℕ → Answers → Audio → Audio
  update now answers a =
      if ltb_ℤ (ms_between a.last_update now) (pos 250)
      then a
      else record (update_element (refresh_cache answers a)) { last_update = now }

  -- `refreshCache(); updateElement(); if (renderFunction) renderFunction();`
  unfoldable pub redraw : Answers → Audio → Audio
  redraw answers a =
      let drawn = update_element (refresh_cache answers a) in
      if drawn.base.render_set then emit Effect.rendered drawn else drawn

  unfoldable pub write_volume : ℕ → ℕ
  write_volume percent = volume_norm * percent / 100

  unfoldable pub perform : Action → Answers → Audio → Audio
  perform Action.toggle_mute answers a =
      redraw answers
        (emit (Effect.set_sink_mute a.current_sink.index (not a.current_sink.is_muted)) a)
  perform Action.cycle_sinks answers a =
      if leb (length a.all_sinks) 1 then a else redraw answers (request_next a)
  perform (Action.adjust_volume delta) answers a =
      redraw answers
        (emit (Effect.set_sink_volume a.current_sink.index (write_volume (new_volume delta a))) a)
