-- ===== src/Windows.antt =====
-- bar.h, the windows of a bar: `monitorNew` with its requests, `setEwmhAtoms`, and the copies that
-- `feed` makes. A piece of code that talks to the X server is an `Action`: it takes the next free
-- id of the connection and gives the requests that it sends, in order. `exit(EXIT_FAILURE)` is
-- `none`. Ids stand for those of `xcb_generate_id`, which are never 0.
pub mod Init
pub mod Things
pub mod Made
pub mod Balance
use photonbar.Common.{
  ℕ, suc, ◌+◌, ◌-◌, Bool, true, false, Option, none, some, List, [], ◌∷◌, ◌++◌, ◌==◌, map, take,
  get_or, if◌then◌else◌, Bytes, ascii,
}
use photonbar.Common.Int.{ℤ, pos, ◌+ℤ◌}
use photonbar.Layout.{to_uint16}
use photonbar.Paint.{to_int16}
use photonbar.Geometry.{strut}
use photonbar.Monitors.Chain.{Geometry, Monitor}

-- The requests that change what the server keeps. A property's values are its 32-bit numbers or
-- its characters. The visual, the event mask and the colormap of a window are always the bar's, and
-- it is not a dock.
pub data Request : Type 0 where
  create_window : (id depth : ℕ) (x y : ℤ) (w h : ℕ) (pixel : ℕ) → Request
  destroy_window : (id : ℕ) → Request
  create_pixmap : (id depth window w h : ℕ) → Request
  free_pixmap : (id : ℕ) → Request
  create_gc : (id drawable pixel : ℕ) → Request
  free_gc : (id : ℕ) → Request
  create_colormap : (id visual : ℕ) → Request
  change_property : (append : Bool) (window property type : ℕ) (values : List ℤ) → Request
  fill_rectangle : (drawable gc : ℕ) (w h : ℕ) → Request
  copy_area : (from to gc w h : ℕ) → Request
  map_window : (id : ℕ) → Request
  move_window : (id : ℕ) (x y : ℤ) → Request
  close_font : (id : ℕ) → Request
  close_xft : (font : ℕ) → Request
  alloc_color : (name : Bytes) → Request
  free_color : Request
  flush : Request
  disconnect : Request

abbrev pub Action : Type 0 → Type 0
Action A = ℕ → Option (A × ℕ × List Request)

-- What runs next, behind requests that have been sent.
abbrev pub behind :
    {A : Type 0} → List Request → Option (A × ℕ × List Request) → Option (A × ℕ × List Request)
behind ops none = none
behind ops (some (a, id, rest)) = some (a, id, ops ++ rest)

infixl 5 ◌>>=◌ ◌>>◌
abbrev pub ◌>>=◌ : {A B : Type 0} → Action A → (A → Action B) → Action B
◌>>=◌ m f id = elim (m id) [ none ↦ none | some (a, id', ops) ↦ behind ops (f a id') ]

abbrev pub ◌>>◌ : {A B : Type 0} → Action A → Action B → Action B
m >> k = m >>= λ _. k

abbrev pub pure : {A : Type 0} → A → Action A
pure a id = some (a, id, [])

abbrev pub send : List Request → Action (Unit {0})
send ops id = some (tt, id, ops)

abbrev pub generate_id : Action ℕ
generate_id id = some (id, suc id, [])

abbrev pub exits : {A : Type 0} → Action A
exits id = none

-- What the connection knows of the screen, and the server's answers to `xcb_intern_atom`.
pub record Display : Type 0 where
  pub root_visual : ℕ
  pub visual : ℕ
  pub screen_width : ℤ
  pub screen_height : ℤ
  pub intern_atom : Bytes → Option ℕ

-- A monitor_t: its place, its window and its pixmap.
pub record Mon : Type 0 where
  pub x : ℤ
  pub y : ℤ
  pub width : ℤ
  pub window : ℕ
  pub pixmap : ℕ

module _ (d : Display) where
  -- XCB_COPY_FROM_PARENT is 0.
  abbrev pub depth : ℕ
  depth = if d.visual == d.root_visual then 0 else 32

  -- `_NET_WM_WINDOW_OPACITY`; XCB_ATOM_CARDINAL is 6.
  unfoldable pub full_opacity : ℕ → List Request
  full_opacity window = elim (d.intern_atom (ascii "_NET_WM_WINDOW_OPACITY")) [
    | none ↦ []
    | some atom ↦ Request.change_property false window atom 6 (pos 4294967295 ∷ []) ∷ []
  ]

  -- `monitorNew`, for a window at the place that `m` gives.
  unfoldable pub open_monitor : ℤ → ℕ → Monitor → Action Mon
  open_monitor bh pixel m = do
    window ← generate_id
    send (
        Request.create_window window depth (to_int16 m.x) (to_int16 m.y) (to_uint16 m.width)
          (to_uint16 bh) pixel
        ∷ full_opacity window)
    pixmap ← generate_id
    send (Request.create_pixmap pixmap depth window (to_uint16 m.width) (to_uint16 bh) ∷ [])
    pure (record { x = m.x; y = m.y; width = m.width; window = window; pixmap = pixmap })

  -- The windows of `monitorCreateChain`, appended by `monitorAdd` one by one.
  unfoldable pub open_monitors : ℤ → ℕ → List Monitor → Action (List Mon)
  open_monitors bh pixel [] = pure []
  open_monitors bh pixel (m ∷ ms) = do
    mon ← open_monitor bh pixel m
    mons ← open_monitors bh pixel ms
    pure (mon ∷ mons)

-- The atoms of `setEwmhAtoms`, in their order.
abbrev pub atom_names : List Bytes
atom_names =
    ascii "_NET_WM_WINDOW_TYPE"
    ∷ ascii "_NET_WM_WINDOW_TYPE_DOCK"
    ∷ ascii "_NET_WM_DESKTOP"
    ∷ ascii "_NET_WM_STRUT_PARTIAL"
    ∷ ascii "_NET_WM_STRUT"
    ∷ ascii "_NET_WM_STATE"
    ∷ ascii "_NET_WM_STATE_STICKY"
    ∷ ascii "_NET_WM_STATE_ABOVE"
    ∷ []

-- The replies, up to the first that is missing.
unfoldable pub atom_list : (Bytes → Option ℕ) → List Bytes → Option (List ℕ)
atom_list intern [] = some []
atom_list intern (name ∷ names) =
    let rest = atom_list intern names in
    elim (intern name) [
      | none ↦ none
      | some atom ↦ elim rest [ none ↦ none | some atoms ↦ some (atom ∷ atoms) ]
    ]

abbrev pub characters : Bytes → List ℤ
characters s = map (λ c. pos c) s

-- The properties of one window. XCB_ATOM_ATOM is 4, XCB_ATOM_STRING 31, XCB_ATOM_WM_NAME 39 and
-- XCB_ATOM_WM_CLASS 67.
unfoldable pub ewmh_properties : Bool → ℤ → List ℕ → Mon → List Request
ewmh_properties topbar bh atoms m =
    let atom : ℕ → ℕ = λ i. get_or atoms i 0 in
    let room = strut topbar bh m.x m.width in
    Request.change_property false m.window (atom 0) 4 (pos (atom 1) ∷ [])
    ∷ Request.change_property true m.window (atom 5) 4 (pos (atom 6) ∷ pos (atom 7) ∷ [])
    ∷ Request.change_property false m.window (atom 2) 6 (pos 4294967295 ∷ [])
    ∷ Request.change_property false m.window (atom 3) 6 room
    ∷ Request.change_property false m.window (atom 4) 6 (take 4 room)
    ∷ Request.change_property false m.window 39 31 (characters (ascii "bar"))
    ∷ Request.change_property false m.window 67 31
        (characters (ascii "lemonbar" ++ (0 ∷ ascii "Bar")))
    ∷ []

abbrev pub each : (Mon → List Request) → List Mon → List Request
each f [] = []
each f (m ∷ ms) = f m ++ each f ms

unfoldable pub set_ewmh_atoms : Display → Bool → ℤ → List Mon → List Request
set_ewmh_atoms d topbar bh mons = elim (atom_list d.intern_atom atom_names) [
  | none ↦ []
  | some atoms ↦ each (ewmh_properties topbar bh atoms) mons
]

-- The copies behind `parseModules` in `feed`, and the flush.
unfoldable pub feed_copies : ℕ → ℤ → List Mon → List Request
feed_copies draw bh mons =
    each (λ m. Request.copy_area m.pixmap m.window draw (to_uint16 m.width) (to_uint16 bh) ∷ [])
      mons
    ++ (Request.flush ∷ [])
