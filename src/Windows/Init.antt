-- ===== src/Windows/Init.antt =====
-- bar.h, how a bar gets its connection and its windows and gives them back: `getVisual`, `xconn`,
-- `init` and `~Bar`. `getXineramaMonitors` is not compiled. The answers of Xlib and RandR are
-- arguments.
use photonbar.Common.{
  ℕ, Bool, true, false, Option, none, some, List, [], ◌∷◌, ◌++◌, ◌==◌, if◌then◌else◌, Bytes, ascii,
}
use photonbar.Common.Int.{ℤ, pos}
use photonbar.Color.{value}
use photonbar.Color.Print.{xft_color_name}
use photonbar.Layout.{to_uint16}
use photonbar.Fonts.{Font, font_load, equal_heights}
use photonbar.Paint.{Colors}
use photonbar.Geometry.{fallback_size}
use photonbar.Monitors.{Rect}
use photonbar.Monitors.Chain.{Geometry, monitor_new, monitor_create_chain}
use photonbar.Monitors.Outputs.{Randr, randr_rects}
use photonbar.Windows.{
  Request, Action, ◌>>=◌, ◌>>◌, pure, send, generate_id, exits, Display, Mon, characters,
  open_monitor, open_monitors, each, set_ewmh_atoms,
}

-- The first visual of depth 32 that `XGetVisualInfo` lists, or the root's.
unfoldable pub get_visual : ℕ → List ℕ → ℕ
get_visual root [] = root
get_visual root (v ∷ vs) = v

-- The connection of the display, which is null where no display could be opened; whether it has an
-- error; and the screen it knows. It gives the visual and the colormap.
unfoldable pub xconn : (Option ℕ → Option ℕ) → (ℕ → Bool) → Option ℕ → ℕ → List ℕ → Action (ℕ × ℕ)
xconn xcb_of has_error display root visuals = elim (xcb_of display) [
  | none ↦ exits
  | some c ↦ elim (has_error c) [
    | true ↦ exits
    | false ↦ do
      colormap ← generate_id
      send (Request.create_colormap colormap (get_visual root visuals) ∷ [])
      pure (get_visual root visuals, colormap)
  ]
]

-- What `init` is told: the display; RandR, where it is present, with the arrays of
-- `getRandrMonitors` as they are before they are written; `qsort`; the font "fixed", where it can
-- be loaded; the colours; and the two names, of which none is null pointers.
pub record Config : Type 0 where
  pub display : Display
  pub randr : Option Randr
  pub old : ℕ → Rect
  pub old' : ℕ → Rect
  pub sort : List Rect → List Rect
  pub fixed : Option Font
  pub colors : Colors
  pub name : Option Bytes

-- What a bar has behind `init`.
pub record Ready : Type 0 where
  pub geometry : Geometry
  pub fonts : List Font
  pub monitors : List Mon
  pub draw : ℕ
  pub clear : ℕ
  pub attr : ℕ

abbrev pub first_height : List Font → ℤ
first_height [] = pos 0
first_height (f ∷ fs) = f.height

-- `WM_CLASS` ends with a terminator.
abbrev pub name_properties : Option Bytes → ℕ → List Request
name_properties none window = []
name_properties (some s) window =
    Request.change_property false window 39 31 (characters s)
    ∷ Request.change_property false window 67 31 (characters (s ++ (0 ∷ (ascii "Bar" ++ (0 ∷ [])))))
    ∷ []

-- The bar is cleared, shown and put in its place.
unfoldable pub show_window : ℤ → ℕ → Option Bytes → Mon → List Request
show_window bh clear name m =
    Request.fill_rectangle m.pixmap clear (to_uint16 m.width) (to_uint16 bh)
    ∷ Request.map_window m.window
    ∷ Request.move_window m.window m.x m.y
    ∷ name_properties name m.window

abbrev pub new_gc : ℕ → ℕ → Action ℕ
new_gc drawable pixel = do
  gc ← generate_id
  send (Request.create_gc gc drawable pixel ∷ [])
  pure gc

module _ (c : Config) where
  -- `getRandrMonitors`, where RandR is there.
  unfoldable pub randr_monitors : Geometry → ℤ → Action (Geometry × List Mon)
  randr_monitors g height = elim c.randr [
    | none ↦ pure (g, [])
    | some x ↦ elim (randr_rects x c.old c.old') [
      | none ↦ pure (g, [])
      | some rects ↦ elim (monitor_create_chain c.sort g height rects) [
        | none ↦ exits
        | some (g', places) ↦ do
          mons ← open_monitors c.display g'.bh (value c.colors.bg) places
          pure (g', mons)
      ]
    ]
  ]

  -- Where there are no monitors yet, one for the whole screen.
  unfoldable pub fall_back : ℤ → Geometry × List Mon → Action (Geometry × List Mon)
  fall_back height (g, m ∷ ms) = pure (g, m ∷ ms)
  fall_back height (g, []) =
      elim (fallback_size g.bx g.by g.bw g.bh g.bu height c.display.screen_width
        c.display.screen_height) [
          | none ↦ exits
          | some (w, h) ↦
              let g' = record g { bw = w; bh = h } in
              do
                mon ←
                    open_monitor c.display h (value c.colors.bg)
                      (monitor_new g' (pos 0) (pos 0) w c.display.screen_height)
                pure (g', mon ∷ [])
        ]

  -- The rest of `init`, from `if (!monhead)` on.
  unfoldable pub set_up : List Font → Geometry × List Mon → Action Ready
  set_up fonts (g, []) = exits
  set_up fonts (g, m ∷ ms) = do
    send (set_ewmh_atoms c.display g.topbar g.bh (m ∷ ms))
    draw ← new_gc m.pixmap (value c.colors.fg)
    clear ← new_gc m.pixmap (value c.colors.bg)
    attr ← new_gc m.pixmap (value c.colors.ul)
    send (each (show_window g.bh clear c.name) (m ∷ ms))
    send (Request.alloc_color (xft_color_name c.colors.fg) ∷ Request.flush ∷ [])
    pure (record {
      geometry = g;
      fonts = fonts;
      monitors = m ∷ ms;
      draw = draw;
      clear = clear;
      attr = attr;
    })

  abbrev pub with_default : List Font → List Font
  with_default [] = font_load c.fixed []
  with_default (f ∷ fs) = f ∷ fs

  unfoldable pub init : Geometry → List Font → Action Ready
  init g fonts = elim (equal_heights (with_default fonts)) [
    | none ↦ exits
    | some fs ↦ do
      found ← randr_monitors g (first_height fs)
      placed ← fall_back (first_height fs) found
      set_up fs placed
  ]

unfoldable pub close_font : Font → Request
close_font f = elim f.xft [ none ↦ Request.close_font f.ptr | some x ↦ Request.close_xft x ]

-- The loop of `~Bar` over `fontList`: the memory from the array's start on; a read behind it is
-- `none`.
unfoldable pub close_fonts : List (Option Font) → Option (List Request)
close_fonts [] = none
close_fonts (none ∷ memory) = some []
close_fonts (some f ∷ memory) = elim (close_fonts memory) [
  | none ↦ none
  | some ops ↦ some (close_font f ∷ ops)
]

abbrev pub free_gc : ℕ → List Request
free_gc gc = if gc == 0 then [] else Request.free_gc gc ∷ []

abbrev pub close_window : Mon → List Request
close_window m = Request.destroy_window m.window ∷ Request.free_pixmap m.pixmap ∷ []

-- `~Bar`, with a connection.
unfoldable pub destroy : List (Option Font) → Ready → Option (List Request)
destroy memory r = elim (close_fonts memory) [
  | none ↦ none
  | some fonts ↦ some (
      fonts
      ++ (each close_window r.monitors
          ++ (Request.free_color
              ∷ (free_gc r.draw
                  ++ (free_gc r.clear ++ (free_gc r.attr ++ (Request.disconnect ∷ [])))))))
]
