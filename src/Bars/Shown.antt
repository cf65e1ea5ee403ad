-- ===== src/Bars/Shown.antt =====
-- The bars that `main` runs show their modules as they are.
use photonbar.Common.{
  ℕ, zero, suc, ◌≡◌, refl, ap, ◌∙◌, inl, inr, Option-cases, get_elem?, Bool, true, false, Option,
  some, List, [], ◌∷◌, All,
}
use mathlib.Core.Option.{some_inj}
use photonbar.Common.Int.{ℤ}
use photonbar.Layout.{Sides}
use photonbar.BarManager.Picture.{Turn, Bar}
use photonbar.BarManager.Auto.{IsAuto, AllSet, IsKept, IsKept-update_workspace}
use photonbar.BarManager.Run.{construct, start, start-IsCurrent, is_workspace}
use photonbar.Bars.{
  BarModule, Answers, Libraries, base, top_left, top_right, bottom_left, bottom_right,
}
use photonbar.Bars.Press.{Action}
use photonbar.Bars.Kept.{update-traits, initialize-traits, initialize_elements-base}
use photonbar.Bars.Drawn.{press-undrawn, press-traits}
use photonbar.Bars.Serve.{
  Seat, seated, act, handle_i3, panels, sides, with_render, set_render, top_modules, bottom_modules,
  serve_top, serve_bottom,
}
use photonbar.Audio.{SinkInfo}
use photonbar.Ping.{Traffic}
use photonbar.Workspace.{Reply, new_workspace}
use photonbar.Module.{set_render_function, new_module}

module _ {W : Type 0} (l : Libraries W) where
  act-panels :
      (k n : ℕ) (h : Action) (ss : List (Seat W))
      → AllSet (seated l) ss
      → (act l (n, h) ss).1 ≡ false
      → panels k (act l (n, h) ss).0 ≡ panels k ss
  unfolding act
  act-panels k n h [] set e = refl
  act-panels k zero h (s ∷ ss) set e = rw (press-undrawn l (s.future 0) h s.unit set.0 e) refl
  act-panels k (suc n) h (s ∷ ss) set e = rw (act-panels (suc k) n h ss set.1 e) refl

  act-sides :
      (left : ℕ) (h : ℕ × Action) (ss : List (Seat W))
      → AllSet (seated l) ss
      → (act l h ss).1 ≡ false
      → sides left (act l h ss).0 ≡ sides left ss
  unfolding sides
  act-sides left (n, h) ss set e = rw (act-panels 0 n h ss set e) refl

  act-IsAuto :
      (h : ℕ × Action) (k : ℕ) (ss : List (Seat W))
      → IsAuto (seated l) k ss
      → IsAuto (seated l) k (act l h ss).0
  unfolding act
  act-IsAuto (n, h) k [] a = a
  act-IsAuto (zero, h) zero (s ∷ ss) (q, e, a) =
      (_, refl, ap (λ t. t.0) (press-traits l (s.future 0) h s.unit) ∙ rw (← some_inj.0 e) at a)
  act-IsAuto (zero, h) (suc k) (s ∷ ss) a = a
  act-IsAuto (suc n, h) zero (s ∷ ss) a = a
  act-IsAuto (suc n, h) (suc k) (s ∷ ss) a = act-IsAuto (n, h) k ss a

  act-AllSet :
      (h : ℕ × Action) (ss : List (Seat W))
      → AllSet (seated l) ss
      → AllSet (seated l) (act l h ss).0
  unfolding act
  act-AllSet (n, h) [] set = tt
  act-AllSet (zero, h) (s ∷ ss) set =
      (ap (λ t. t.1) (press-traits l (s.future 0) h s.unit) ∙ set.0, set.1)
  act-AllSet (suc n, h) (s ∷ ss) set = (set.0, act-AllSet (n, h) ss set.1)

  act-IsKept :
      (w : Option ℕ) (h : ℕ × Action) (ss : List (Seat W))
      → IsKept (seated l) w ss
      → IsKept (seated l) w (act l h ss).0
  act-IsKept w h ss k = ((λ n e. act-IsAuto h n ss (k.0 n e)), act-AllSet h ss k.1)

  handle_i3-IsKept :
      (left : ℕ) (w : Option ℕ) (n : ℕ) (b : Bar (Seat W) (ℕ × Action))
      → IsKept (seated l) w b.modules
      → IsKept (seated l) w (handle_i3 l left n b).modules
  unfolding handle_i3
  handle_i3-IsKept left w n b k = elim (Option-cases (get_elem? b.modules n)) [
    | inl absent ↦ rw (absent, handle_i3) k
    | inr (s, there) ↦
        rw (there, handle_i3)
          (IsKept-update_workspace (seated l) (λ q. update-traits l (q.future 0) q.unit) w n
            b.modules k)
  ]

  -- A module named "workspace" has `autoUpdate`.
  abbrev NamedAuto : Seat W → Type 0
  NamedAuto s = is_workspace (seated l) s ≡ true → (base s.unit).auto_update ≡ true

  serve-IsCurrent :
      (left : ℕ) (lay : Sides (ℕ × Action) → Sides (ℕ × Action)) (ts : List Turn) (xcb_fd : ℤ)
      (ss : List (Seat W)) {b : Bar (Seat W) (ℕ × Action)}
      → All NamedAuto ss
      → AllSet (seated l) ss
      → start (seated l) (sides left) lay (act l) (handle_i3 l left) ts xcb_fd ss ≡ some b
      → b.picture ≡ lay (sides left b.modules)
  serve-IsCurrent left lay ts xcb_fd ss {b} named set e =
      (start-IsCurrent (seated l) (λ s. update-traits l (s.future 0) s.unit)
        (λ s. initialize-traits l (s.future 0) s.unit) (sides left) lay (act l) (handle_i3 l left)
        (act-sides left) act-IsKept (handle_i3-IsKept left) ts xcb_fd ss named set e).shown

  module _ (told : ℕ → ℕ → Answers W) where
    workspace_auto :
        (i3_fd : ℤ) (workspaces : Option (List Reply))
        → (new_workspace i3_fd workspaces).base.auto_update ≡ true
    unfolding new_workspace photonbar.Workspace.initialize photonbar.Workspace.subscribe new_module
    workspace_auto i3_fd workspaces = rw (initialize_elements-base workspaces _) refl

    top_named :
        (i3_fd : ℤ) (workspaces : Option (List Reply)) (sink : SinkInfo) (curl_handle : Bool)
        → All NamedAuto (top_modules l told i3_fd workspaces sink curl_handle)
    unfolding top_modules construct top_left top_right with_render base set_render_function
        photonbar.Audio.new_audio photonbar.Notifications.new_notifications
        photonbar.Datetime.new_datetime new_module
    top_named i3_fd workspaces sink curl_handle = (
      (λ e. workspace_auto i3_fd workspaces),
      ((λ e. e), ((λ e. e), ((λ e. e), ((λ e. e), ((λ e. e), tt))))),
    )

    bottom_named : (traffic : Traffic) → All NamedAuto (bottom_modules l told traffic)
    unfolding bottom_modules construct bottom_left bottom_right with_render base
    bottom_named traffic = ((λ e. e), ((λ e. e), ((λ e. e), ((λ e. e), ((λ e. e), tt)))))

    -- The constructor of BarManager calls `setRenderFunction` on each of its modules.
    with_render-set : (m : BarModule W) → (base (with_render m)).render_set ≡ true
    unfolding with_render base set_render_function
    with_render-set (BarModule.workspace s) = refl
    with_render-set (BarModule.audio s) = refl
    with_render-set (BarModule.battery s r) = refl
    with_render-set (BarModule.notifications s) = refl
    with_render-set (BarModule.weather s r) = refl
    with_render-set (BarModule.datetime s) = refl
    with_render-set (BarModule.network s r) = refl
    with_render-set (BarModule.timer s) = refl
    with_render-set (BarModule.stopwatch s) = refl
    with_render-set (BarModule.space s r) = refl
    with_render-set (BarModule.resources s r) = refl

    construct-AllSet :
        (left right : List (Seat W)) → AllSet (seated l) (construct set_render left right)
    unfolding construct
    construct-AllSet [] [] = tt
    construct-AllSet [] (s ∷ ss) = (with_render-set s.unit, construct-AllSet [] ss)
    construct-AllSet (s ∷ ss) right = (with_render-set s.unit, construct-AllSet ss right)

    top-AllSet :
        (i3_fd : ℤ) (workspaces : Option (List Reply)) (sink : SinkInfo) (curl_handle : Bool)
        → AllSet (seated l) (top_modules l told i3_fd workspaces sink curl_handle)
    unfolding top_modules
    top-AllSet i3_fd workspaces sink curl_handle = construct-AllSet _ _

    bottom-AllSet : (traffic : Traffic) → AllSet (seated l) (bottom_modules l told traffic)
    unfolding bottom_modules
    bottom-AllSet traffic = construct-AllSet _ _

  -- The top bar and the bottom bar, made of the modules that `main` gives them and initialised,
  -- show the elements of their modules as they are behind any number of rounds, whatever clocks,
  -- files, services, i3 and presses do in between: the picture is what a `feed` that reads all
  -- contents afresh, whatever `dirtyContent` says, would make of the modules then.
  pub serve-shows :
      (lay lay' : Sides (ℕ × Action) → Sides (ℕ × Action)) (ts ts' : List Turn)
      (told told' : ℕ → ℕ → Answers W) (xcb_fd xcb_fd' i3_fd : ℤ) (workspaces : Option (List Reply))
      (sink : SinkInfo) (curl_handle : Bool) (traffic : Traffic)
      {top bottom : Bar (Seat W) (ℕ × Action)}
      → serve_top l lay ts xcb_fd (top_modules l told i3_fd workspaces sink curl_handle) ≡ some top
      → serve_bottom l lay' ts' xcb_fd' (bottom_modules l told' traffic) ≡ some bottom
      → (top.picture ≡ lay (sides 1 top.modules)) × (bottom.picture ≡ lay' (sides 2 bottom.modules))
  unfolding serve_top serve_bottom
  serve-shows lay lay' ts ts' told told' xcb_fd xcb_fd' i3_fd workspaces sink curl_handle traffic e
        f =
      let tops = top_modules l told i3_fd workspaces sink curl_handle in
      (
        serve-IsCurrent 1 lay ts xcb_fd tops (top_named told i3_fd workspaces sink curl_handle)
            (top-AllSet told i3_fd workspaces sink curl_handle) e,
        serve-IsCurrent 2 lay' ts' xcb_fd' (bottom_modules l told' traffic)
            (bottom_named told' traffic) (bottom-AllSet told' traffic) f,
      )
