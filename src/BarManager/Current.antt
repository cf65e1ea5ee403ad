-- ===== src/BarManager/Current.antt =====
-- The picture of `BarManager::run` (main.cpp) with bar.h: between two rounds it shows the modules as
-- they are.
use photonbar.Common.{
  ℕ, ◌≡◌, refl, sym, ◌∙◌, ◌⊎◌, Bool, false, not, ◌&&◌, Option, none, some, List, [], ◌∷◌,
  if◌then◌else◌, inl, inr, Bool-cases, Option-cases,
}
use mathlib.Core.Path.{subst}
use mathlib.Core.Option.{some_inj, none-ne-some}
use photonbar.Common.Int.{ℤ, pos, negsuc, ltb_ℤ, eqb_ℤ}
use photonbar.Layout.{Sides, button_press}
use photonbar.Layout.Events.{XEvent}
use photonbar.Module.{Interface}
use photonbar.BarManager.{update_workspace}
use photonbar.BarManager.Rounds.{any_due, update_each_lem}
use photonbar.BarManager.Picture.{
  Turn, Bar, feed, noticed, on_event, on_events, refresh, idle, settle, round, rounds,
}
use photonbar.Module.{traits}
use photonbar.BarManager.Auto.{
  AllSet, IsKept, IsAuto-any_due, IsKept-update_workspace, IsKept-map, none_due,
}

-- The picture is the one of the modules as they are.
pub record IsCurrent {S A : Type 0} (i : Interface S) (elements : List S → Sides A)
    (lay : Sides A → Sides A) (workspace : Option ℕ) (b : Bar S A) : Type 0 where
  pub shown : b.picture ≡ lay (elements b.modules)
  pub kept : IsKept i workspace b.modules

module _ {S : Type 0} (i : Interface S)
    (keeps : (m : S) → traits (i.base (i.update m)) ≡ traits (i.base m)) where
  module _ {A : Type 0} (elements : List S → Sides A) (lay : Sides A → Sides A)
      (act : A → List S → List S × Bool) (i3 : ℕ → Bar S A → Bar S A) (workspace : Option ℕ)
      (draws : (h : A) (ms : List S)
        → AllSet i ms
        → (act h ms).1 ≡ false
        → elements (act h ms).0 ≡ elements ms)
      (stays : (h : A) (ms : List S) → IsKept i workspace ms → IsKept i workspace (act h ms).0)
      (noticed_stays : (n : ℕ) (b : Bar S A)
        → IsKept i workspace b.modules
        → IsKept i workspace (i3 n b).modules) where
    abbrev Current : Bar S A → Type 0
    Current b = IsCurrent i elements lay workspace b

    abbrev Kept : Bar S A → Type 0
    Kept b = IsKept i workspace b.modules

    on_event-Kept : (e : XEvent) (b : Bar S A) → Kept b → Kept (on_event i elements lay act i3 e b)
    unfolding on_event feed
    on_event-Kept (XEvent.expose count) b kept = kept
    on_event-Kept XEvent.other b kept = kept
    on_event-Kept (XEvent.press window detail x) b kept =
        elim (Option-cases (button_press window detail x b.picture)) [
          | inl missed ↦ rw (missed, on_event) kept
          | inr (h, hit) ↦ elim (Bool-cases (act h b.modules).1) [
            | inl drawn ↦ rw (hit, on_event) (rw drawn (stays h b.modules kept))
            | inr quiet ↦ rw (hit, on_event) (rw quiet (stays h b.modules kept))
          ]
        ]

    on_events-Kept :
        (es : List XEvent) (b : Bar S A) → Kept b → Kept (on_events i elements lay act i3 es b)
    unfolding on_events
    on_events-Kept [] b kept = kept
    on_events-Kept (e ∷ es) b kept =
        on_events-Kept es (on_event i elements lay act i3 e b) (on_event-Kept e b kept)

    on_event-IsCurrent :
        (e : XEvent) (b : Bar S A) → Current b → Current (on_event i elements lay act i3 e b)
    unfolding on_event feed
    on_event-IsCurrent (XEvent.expose count) b c = c
    on_event-IsCurrent XEvent.other b c = c
    on_event-IsCurrent (XEvent.press window detail x) b c =
        elim (Option-cases (button_press window detail x b.picture)) [
          | inl missed ↦ rw (missed, on_event) c
          | inr (h, hit) ↦
              let kept = stays h b.modules c.kept in
              elim (Bool-cases (act h b.modules).1) [
                | inl drawn ↦ rw (hit, on_event) (rw drawn (record { shown = refl; kept = kept }))
                | inr quiet ↦
                    rw (hit, on_event)
                      (rw quiet (record {
                        shown = rw (draws h b.modules c.kept.1 quiet) c.shown;
                        kept = kept;
                      }))
              ]
        ]

    on_events-IsCurrent :
        (es : List XEvent) (b : Bar S A)
        → Current b
        → Current (on_events i elements lay act i3 es b)
    unfolding on_events
    on_events-IsCurrent [] b c = c
    on_events-IsCurrent (e ∷ es) b c =
        on_events-IsCurrent es (on_event i elements lay act i3 e b) (on_event-IsCurrent e b c)

    refresh-IsCurrent :
        (now : ℤ) (b : Bar S A) → Current b → Current (refresh i elements lay act i3 now b)
    unfolding refresh feed
    refresh-IsCurrent now b c =
        let kept = IsKept-map i keeps workspace now b.modules c.kept in
        elim (Bool-cases (any_due i now b.modules)) [
          | inl due ↦
              rw (refresh, update_each_lem i now b.modules)
                (rw due (record { shown = refl; kept = kept }))
          | inr idle ↦
              rw (refresh, update_each_lem i now b.modules)
                (rw (idle, none_due i keeps now b.modules idle) c)
        ]

    -- Behind a change of the workspaces the bar is drawn, since their module is always due.
    changed-IsCurrent :
        (now : ℤ) (n : ℕ) (b : Bar S A)
        → workspace ≡ some n
        → Kept b
        → Current (
            refresh i elements lay act i3 now
              (record b { modules = update_workspace i n b.modules }))
    unfolding refresh feed
    changed-IsCurrent now n b e kept =
        let ms = update_workspace i n b.modules in
        let moved = IsKept-update_workspace i keeps workspace n b.modules kept in
        rw (refresh, update_each_lem i now ms)
          (rw (IsAuto-any_due i keeps now n ms (moved.0 n e))
            (record { shown = refl; kept = IsKept-map i keeps workspace now ms moved }))

    settle_absent :
        (t : Turn) (b : Bar S A)
        → workspace ≡ none
        → settle i elements lay act i3 workspace t b ≡ idle i elements lay act i3 t b
    unfolding settle
    settle_absent t b e = rw (e, settle) refl

    settle_there :
        (t : Turn) (b : Bar S A) (n : ℕ)
        → workspace ≡ some n
        → settle i elements lay act i3 workspace t b ≡ (
            if t.workspace_changed
            then refresh i elements lay act i3 t.now
                (record b { modules = update_workspace i n b.modules })
            else idle i elements lay act i3 t b)
    unfolding settle
    settle_there t b n e = rw (e, settle) refl

    idle-IsCurrent : (t : Turn) (b : Bar S A) → Current b → Current (idle i elements lay act i3 t b)
    idle-IsCurrent t b c = elim (Bool-cases (eqb_ℤ t.selected (pos 0))) [
      | inl timeout ↦ rw timeout (refresh-IsCurrent t.now b c)
      | inr woken ↦ rw woken c
    ]

    -- There is no change of the workspaces to report.
    abbrev Unchanged : Turn → Type 0
    Unchanged t = (workspace ≡ none) ⊎ (t.workspace_changed ≡ false)

    settle-IsCurrent :
        (t : Turn) (b : Bar S A)
        → Kept b
        → (Unchanged t → Current b)
        → Current (settle i elements lay act i3 workspace t b)
    settle-IsCurrent t b kept c = elim (Option-cases workspace) [
      | inl absent ↦
          subst Current (sym (settle_absent t b absent)) (idle-IsCurrent t b (c (inl absent)))
      | inr (n, there) ↦
          subst Current (sym (settle_there t b n there)) (elim (Bool-cases t.workspace_changed) [
            | inl changed ↦ rw changed (changed-IsCurrent t.now n b there kept)
            | inr same ↦ rw same (idle-IsCurrent t b (c (inr same)))
          ])
    ]

    noticed-Kept :
        (w : Option ℕ) (t : Turn) (b : Bar S A)
        → Kept b
        → Kept (noticed i elements lay act i3 w t b)
    unfolding noticed
    noticed-Kept none t b kept = kept
    noticed-Kept (some n) t b kept = elim (Bool-cases t.workspace_changed) [
      | inl changed ↦ rw changed (noticed_stays n b kept)
      | inr same ↦ rw same kept
    ]

    noticed-Unchanged :
        (w : Option ℕ) (t : Turn) (b : Bar S A)
        → w ≡ workspace
        → Unchanged t
        → noticed i elements lay act i3 w t b ≡ b
    unfolding noticed
    noticed-Unchanged none t b at same = refl
    noticed-Unchanged (some n) t b at (inl absent) = absurd (none-ne-some n (sym (at ∙ absent)))
    noticed-Unchanged (some n) t b at (inr same) = rw same refl

    round-IsCurrent :
        (t : Turn) (b : Bar S A) {b' : Bar S A}
        → Current b
        → round i elements lay act i3 workspace t b ≡ some b'
        → Current b'
    unfolding round
    round-IsCurrent t b {b'} c e =
        let seen = noticed i elements lay act i3 workspace t b in
        let kept = noticed-Kept workspace t b c.kept in
        let current = λ (same : Unchanged t).
          subst Current (sym (noticed-Unchanged workspace t b refl same)) c in
        elim (Bool-cases (ltb_ℤ t.selected (pos 0))) [
          | inl failed ↦ absurd (none-ne-some b' (rw failed at e))
          | inr going ↦
              subst Current (some_inj.0 (rw going at e))
                (elim (Bool-cases (not (eqb_ℤ b.xcb_fd (negsuc 0)) && t.x_ready)) [
                  | inl ready ↦ rw ready (
                      settle-IsCurrent t (on_events i elements lay act i3 t.events seen)
                        (on_events-Kept t.events seen kept)
                        (λ same. on_events-IsCurrent t.events seen (current same)))
                  | inr silent ↦ rw silent (settle-IsCurrent t seen kept current)
                ])
        ]

    -- Where a handler that does not draw changes no elements of modules that have their render
    -- functions, and handlers, updates and the events of i3 keep these and `autoUpdate` of the
    -- workspaces' module, the picture is of the modules as they are behind any number of rounds,
    -- if it was before.
    pub rounds-IsCurrent :
        (ts : List Turn) (b : Bar S A)
        → IsCurrent i elements lay workspace b
        → IsCurrent i elements lay workspace (rounds i elements lay act i3 workspace ts b)
    unfolding rounds
    rounds-IsCurrent [] b c = c
    rounds-IsCurrent (t ∷ ts) b c =
        elim (Option-cases (round i elements lay act i3 workspace t b)) [
          | inl ended ↦ rw (rounds, ended) c
          | inr (b', next) ↦ rw (rounds, next) (rounds-IsCurrent ts b' (round-IsCurrent t b c next))
        ]
