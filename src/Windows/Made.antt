-- ===== src/Windows/Made.antt =====
-- `init` (bar.h): what a bar takes from the X server.
use photonbar.Common.{
  ℕ, suc, ◌≤◌, ◌<◌, ◌≡◌, refl, ap, Bool, Option, none, some, List, [], ◌∷◌, ◌++◌, Bytes, arith, inl,
  inr, Option-cases, ascii, append_assoc, append-nil,
}
use photonbar.Common.Int.{ℤ, pos}
use photonbar.Color.{value}
use photonbar.Color.Print.{xft_color_name}
use photonbar.Fonts.{Font, equal_heights}
use photonbar.Geometry.{fallback_size}
use photonbar.Monitors.Chain.{Geometry, Monitor, monitor_new, monitor_create_chain}
use photonbar.Monitors.Outputs.{randr_rects}
use photonbar.Windows.{
  Request, ◌>>=◌, pure, Display, Mon, full_opacity, open_monitor, open_monitors, each,
  set_ewmh_atoms, ewmh_properties, atom_list, atom_names,
}
use photonbar.Windows.Things.{
  Thing, Makes, Makes-append, held, Post, Post-bind, Post-map, each-silent,
}
use photonbar.Windows.Init.{
  Config, Ready, randr_monitors, fall_back, set_up, init, with_default, first_height, show_window,
}

-- Some monitors are open: the requests made them, with ids from `id` on.
abbrev Opens : ℕ → List Mon → ℕ → List Request → Type 0
Opens id mons id' ops = (id ≤ id') × Makes (held mons) ops

open_monitor-Opens :
    (d : Display) (bh : ℤ) (pixel : ℕ) (m : Monitor) (id : ℕ)
    → Post (λ mon id' ops. Opens id (mon ∷ []) id' ops) (open_monitor d bh pixel m id)
unfolding open_monitor full_opacity
open_monitor-Opens d bh pixel m id =
    elim (Option-cases (d.intern_atom (ascii "_NET_WM_WINDOW_OPACITY"))) [
      | inl unknown ↦
          rw (open_monitor, full_opacity, unknown)
            (omega arith, record { makes = refl; keeps = refl })
      | inr (atom, known) ↦
          rw (open_monitor, full_opacity, known)
            (omega arith, record { makes = refl; keeps = refl })
    ]

open_monitors-Opens :
    (d : Display) (bh : ℤ) (pixel : ℕ) (ms : List Monitor) (id : ℕ)
    → Post (Opens id) (open_monitors d bh pixel ms id)
unfolding open_monitors
open_monitors-Opens d bh pixel [] id = (omega arith, record { makes = refl; keeps = refl })
open_monitors-Opens d bh pixel (m ∷ ms) id =
    Post-bind (λ mon id' ops. Opens id (mon ∷ []) id' ops) (Opens id) (open_monitor d bh pixel m) _
      id (open_monitor-Opens d bh pixel m id)
      λ mon id' ops h.
        Post-bind (Opens id') (λ mons id'' rest. Opens id mons id'' (ops ++ rest))
          (open_monitors d bh pixel ms) (λ mons. pure (mon ∷ mons)) id'
          (open_monitors-Opens d bh pixel ms id')
          λ mons id'' rest g. (
            omega (arith, h.0, g.0),
            rw (append-nil rest) (Makes-append (held (mon ∷ [])) (held mons) ops rest h.1 g.1),
          )

set_ewmh_atoms-silent :
    (d : Display) (topbar : Bool) (bh : ℤ) (ms : List Mon)
    → Makes [] (set_ewmh_atoms d topbar bh ms)
unfolding set_ewmh_atoms ewmh_properties
set_ewmh_atoms-silent d topbar bh ms = elim (Option-cases (atom_list d.intern_atom atom_names)) [
  | inl missing ↦ rw (set_ewmh_atoms, missing) (record { makes = refl; keeps = refl })
  | inr (atoms, there) ↦
      rw (set_ewmh_atoms, there)
        (each-silent (ewmh_properties topbar bh atoms) ms
          (λ m. record { makes = refl; keeps = refl }))
]

show_window-silent :
    (bh : ℤ) (clear : ℕ) (name : Option Bytes) (m : Mon) → Makes [] (show_window bh clear name m)
unfolding show_window
show_window-silent bh clear none m = record { makes = refl; keeps = refl }
show_window-silent bh clear (some s) m = record { makes = refl; keeps = refl }

abbrev pub contexts : Ready → List Thing
contexts r = Thing.context r.draw ∷ Thing.context r.clear ∷ Thing.context r.attr ∷ []

-- Behind the last part of `init`: the monitors are those found, and the contexts are new.
record IsSetUp (id : ℕ) (mons : List Mon) (r : Ready) (ops : List Request) : Type 0 where
  same : r.monitors ≡ mons
  draw : id ≤ r.draw
  clear : id ≤ r.clear
  attr : id ≤ r.attr
  new : Makes (contexts r) ops

set_up-IsSetUp :
    (c : Config) (fonts : List Font) (g : Geometry) (ms : List Mon) (id : ℕ)
    → Post (λ r id' ops. IsSetUp id ms r ops) (set_up c fonts (g, ms) id)
unfolding set_up
set_up-IsSetUp c fonts g [] id = tt
set_up-IsSetUp c fonts g (m ∷ ms) id =
    let properties = set_ewmh_atoms c.display g.topbar g.bh (m ∷ ms) in
    let shown = each (show_window g.bh (suc id) c.name) (m ∷ ms) in
    let last = Request.alloc_color (xft_color_name c.colors.fg) ∷ Request.flush ∷ [] in
    let silent =
      Makes-append [] [] shown last
        (each-silent (show_window g.bh (suc id) c.name) (m ∷ ms)
          (show_window-silent g.bh (suc id) c.name))
        (record { makes = refl; keeps = refl }) in
    let three = Thing.context id ∷ Thing.context (suc id) ∷ Thing.context (suc (suc id)) ∷ [] in
    record {
      same = refl;
      draw = omega arith;
      clear = omega arith;
      attr = omega arith;
      new =
          Makes-append [] three properties _
            (set_ewmh_atoms-silent c.display g.topbar g.bh (m ∷ ms))
            (record { makes = ap (λ l. three ++ l) silent.makes; keeps = silent.keeps });
    }

abbrev Found : ℕ → Geometry × List Mon → ℕ → List Request → Type 0
Found id (g, mons) id' ops = Opens id mons id' ops

no_monitors : (id : ℕ) (g : Geometry) → Found id (g, []) id []
no_monitors id g = (omega arith, record { makes = refl; keeps = refl })

randr_monitors-Found :
    (c : Config) (g : Geometry) (height : ℤ) (id : ℕ)
    → Post (Found id) (randr_monitors c g height id)
unfolding randr_monitors
randr_monitors-Found c g height id = elim (Option-cases c.randr) [
  | inl absent ↦ rw (randr_monitors, absent) (no_monitors id g)
  | inr (x, present) ↦ elim (Option-cases (randr_rects x c.old c.old')) [
    | inl unusable ↦ rw (randr_monitors, present, unusable) (no_monitors id g)
    | inr (rects, found) ↦ elim (Option-cases (monitor_create_chain c.sort g height rects)) [
      | inl too_big ↦ rw (randr_monitors, present, found, too_big) tt
      | inr ((g', places), fits) ↦
          rw (randr_monitors, present, found, fits)
            (Post-bind (Opens id) (Found id)
              (open_monitors c.display g'.bh (value c.colors.bg) places) (λ mons. pure (g', mons))
              id (open_monitors-Opens c.display g'.bh (value c.colors.bg) places id)
              λ mons id' ops h. (h.0, rw (append-nil ops) h.1))
    ]
  ]
]

fall_back-Found :
    (c : Config) (height : ℤ) (f : Geometry × List Mon) (id id' : ℕ) (ops : List Request)
    → Found id f id' ops
    → Post (λ f' id'' rest. Found id f' id'' (ops ++ rest)) (fall_back c height f id')
unfolding fall_back
fall_back-Found c height (g, m ∷ ms) id id' ops h = (h.0, rw (append-nil ops) h.1)
fall_back-Found c height (g, []) id id' ops h =
    let size =
      fallback_size g.bx g.by g.bw g.bh g.bu height c.display.screen_width
        c.display.screen_height in
    elim (Option-cases size) [
      | inl too_big ↦ rw (fall_back, too_big) tt
      | inr ((w, bh), fits) ↦
          let g' = record g { bw = w; bh = bh } in
          let place = monitor_new g' (pos 0) (pos 0) w c.display.screen_height in
          let open_one = open_monitor c.display bh (value c.colors.bg) place in
          rw (fall_back, fits)
            (Post-bind (λ m id'' rest. Opens id' (m ∷ []) id'' rest)
              (λ f' id'' rest. Found id f' id'' (ops ++ rest)) open_one (λ m. pure (g', m ∷ [])) id'
              (open_monitor-Opens c.display bh (value c.colors.bg) place id')
              λ m id'' rest one. (
                omega (arith, h.0, one.0),
                rw (append-nil rest) (Makes-append [] (held (m ∷ [])) ops rest h.1 one.1),
              ))
    ]

-- Behind `init` the bar holds what its requests made, and the contexts' ids are not 0.
pub record Holds (r : Ready) (ops : List Request) : Type 0 where
  pub draw : 0 < r.draw
  pub clear : 0 < r.clear
  pub attr : 0 < r.attr
  pub new : Makes (held r.monitors ++ contexts r) ops

set_up-Holds :
    (c : Config) (fonts : List Font) (f : Geometry × List Mon) (id id' : ℕ) (ops : List Request)
    → 0 < id
    → Found id f id' ops
    → Post (λ r id'' rest. Holds r (ops ++ rest)) (set_up c fonts f id')
set_up-Holds c fonts (g, ms) id id' ops h found =
    Post-map (λ r id'' rest. IsSetUp id' ms r rest) (λ r id'' rest. Holds r (ops ++ rest))
      (set_up c fonts (g, ms) id') (set_up-IsSetUp c fonts g ms id')
      λ r id'' rest s. record {
        draw = omega (arith, h, found.0, s.draw);
        clear = omega (arith, h, found.0, s.clear);
        attr = omega (arith, h, found.0, s.attr);
        new = rw s.same (Makes-append (held ms) (contexts r) ops rest found.1 s.new);
      }

pub init-Holds :
    (c : Config) (g : Geometry) (fonts : List Font) (id : ℕ)
    → 0 < id
    → Post (λ r id' ops. Holds r ops) (init c g fonts id)
unfolding init
init-Holds c g fonts id h = elim (Option-cases (equal_heights (with_default c fonts))) [
  | inl fontless ↦ rw (init, fontless) tt
  | inr (fs, loaded) ↦
      let height = first_height fs in
      rw (init, loaded)
        (Post-bind (Found id) (λ r id' ops. Holds r ops) (randr_monitors c g height)
          (λ found. fall_back c height found >>= set_up c fs) id
          (randr_monitors-Found c g height id)
          λ found id' ops first.
            Post-bind (λ f' id'' rest. Found id f' id'' (ops ++ rest))
              (λ r id'' rest. Holds r (ops ++ rest)) (fall_back c height found) (set_up c fs) id'
              (fall_back-Found c height found id id' ops first)
              λ placed id'' rest second.
                Post-map (λ r id''' last. Holds r ((ops ++ rest) ++ last))
                  (λ r id''' last. Holds r (ops ++ (rest ++ last))) (set_up c fs placed id'')
                  (set_up-Holds c fs placed id id'' (ops ++ rest) h second)
                  λ r id''' last done. rw (← append_assoc ops rest last) done)
]
