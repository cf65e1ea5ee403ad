-- ===== src/Tests/Windows.antt =====
-- The windows of a bar on small inputs.
use photonbar.Common.{
  ℕ, ◌<◌, ◌≡◌, refl, true, false, none, some, Option, List, [], ◌∷◌, map, arith, ◌==◌,
  if◌then◌else◌, ascii,
}
use photonbar.Common.Int.{pos, ◌+ℤ◌, ◌-ℤ◌}
use photonbar.Color.{Color, value}
use photonbar.Fonts.{Font, equal_heights, font_load}
use photonbar.Paint.{to_int16}
use photonbar.Monitors.{
  Rect, drop_clones, rounds, round, shade, is_clone, contains, collect, shade_one,
}
use photonbar.Monitors.Chain.{monitor_create_chain, extent, monitor_new, place, settle}
use photonbar.Monitors.Chain.Place.{monitor_for}
use photonbar.Monitors.Chain.Default.{default_geometry, settled, monitor_create_chain-default}
use photonbar.Monitors.Outputs.{Randr, randr_rects, read_outputs, usable, fill_array, from_outputs}
use photonbar.Monitors.Unread.{randr_rects-unread}
use photonbar.Windows.{
  Request, atom_list, ewmh_properties, full_opacity, open_monitor, open_monitors, set_ewmh_atoms,
}
use photonbar.Windows.Init.{
  Config, Ready, init, destroy, randr_monitors, fall_back, set_up, show_window, close_fonts,
  close_font,
}
use photonbar.Windows.Things.{made, gone, over_all}
use photonbar.Color.Print.{hex6, hex_digit, xft_color_name}
use photonbar.Geometry.{fallback_size, strut}
use photonbar.Windows.Balance.{init-destroy}

abbrev left : Rect
left = record { x = pos 0; y = pos 0; width = 800; height = 600 }

abbrev right : Rect
right = record { x = pos 800; y = pos 0; width = 640; height = 480 }

-- Two outputs that are on, and between them one that is not connected.
abbrev randr : Randr
randr = record {
  outputs = some (1 ∷ 2 ∷ 3 ∷ []);
  output_info = λ o. some (record { crtc = o; connected = if o == 2 then false else true });
  crtc_info = λ c. if c == 1 then some left else if c == 3 then some right else none;
}

crtc_wide : (c : ℕ) (r : Rect) → randr.crtc_info c ≡ some r → 0 < r.width
crtc_wide c r e = ground arith

randr_rects-unread_example :
    randr_rects randr (λ i. left) (λ i. right) ≡ randr_rects randr (λ i. right) (λ i. left)
randr_rects-unread_example =
    randr_rects-unread randr crtc_wide (λ i. left) (λ i. right) (λ i. right) (λ i. left)

monitor_create_chain-default_example :
    monitor_create_chain (λ rs. rs) (default_geometry true) (pos 16) (left ∷ right ∷ [])
    ≡ some (
      settled true (pos 16) (left ∷ right ∷ []),
      map (monitor_for (settled true (pos 16) (left ∷ right ∷ []))) (left ∷ right ∷ []),
    )
unfolding extent ◌+ℤ◌
monitor_create_chain-default_example =
    monitor_create_chain-default (λ rs. rs) true (pos 16) (left ∷ right ∷ []) (omega arith)
      (omega arith)

abbrev sans : Font
sans = record {
  ptr = 0;
  width_lut = none;
  xft = some 1;
  descent = pos 3;
  height = pos 16;
  width = pos 0;
  char_max = 0;
  char_min = 0;
}

abbrev white : Color
white = record { b = 255; g = 255; r = 255; a = 255 }

abbrev config : Config
config = record {
  display = record {
    root_visual = 1;
    visual = 2;
    screen_width = pos 1440;
    screen_height = pos 600;
    intern_atom = λ name. some 99;
  };
  randr = some randr;
  old = λ i. left;
  old' = λ i. left;
  sort = λ rs. rs;
  fixed = none;
  colors = record { fg = white; bg = white; ul = white };
  name = some (ascii "bar");
}

abbrev started : Option (Ready × ℕ × List Request)
started = init config (default_geometry true) (sans ∷ []) 1

abbrev bar_of : Option (Ready × ℕ × List Request) → Ready
bar_of none = record {
  geometry = default_geometry true;
  fonts = [];
  monitors = [];
  draw = 0;
  clear = 0;
  attr = 0;
}
bar_of (some (r, id, ops)) = r

abbrev requests_of : Option (Ready × ℕ × List Request) → List Request
requests_of none = []
requests_of (some (r, id, ops)) = ops

abbrev next_of : Option (Ready × ℕ × List Request) → ℕ
next_of none = 0
next_of (some (r, id, ops)) = id

abbrev given_back : Option (List Request) → List Request
given_back none = []
given_back (some ops) = ops

init-destroy_example :
    let before = requests_of started in
    let behind = given_back (destroy (some sans ∷ none ∷ []) (bar_of started)) in
    (over_all gone before ≡ [])
    × (over_all made behind ≡ [])
    × (over_all gone behind ≡ over_all made before)
unfolding init destroy default_geometry randr_rects monitor_create_chain extent ◌+ℤ◌ equal_heights
    font_load randr_monitors fall_back set_up show_window close_fonts close_font read_outputs usable
    fill_array from_outputs drop_clones rounds round shade is_clone contains collect shade_one hex6
    hex_digit xft_color_name value ◌-ℤ◌ fallback_size strut monitor_new place settle to_int16
    atom_list ewmh_properties full_opacity open_monitor open_monitors set_ewmh_atoms
init-destroy_example =
    init-destroy config (default_geometry true) (sans ∷ []) (some sans ∷ none ∷ []) 1
      {r = bar_of started} {id' = next_of started} {ops = requests_of started}
      {ops' = given_back (destroy (some sans ∷ none ∷ []) (bar_of started))} (omega arith) refl refl
