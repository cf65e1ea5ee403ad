-- ===== src/BarManager.antt =====
-- main.cpp, the class BarManager: the modules of one bar, their initialisation, and the rounds of
-- `run`. The modules share a state type `S` behind module.h's interface; what `select`, the X
-- server and i3 answer in a round is an argument, and what the round does is a list of calls.
pub mod Rounds
pub mod Timeout
pub mod Picture
pub mod Auto
pub mod Current
pub mod Run
pub mod Woken
use photonbar.Common.{
  ℕ, zero, suc, ◌+◌, Bool, true, false, not, ◌&&◌, ◌||◌, Option, none, some, List, [], ◌∷◌, ◌++◌,
  bytes_eq, ascii, if◌then◌else◌,
}
use photonbar.Common.Int.{ℤ, pos, negsuc, ltb_ℤ, eqb_ℤ, ◌+ℤ◌}
use photonbar.Module.{Module, Interface, check_and_update}

-- `bar->feed()`, `bar->processXEvents()`, `workspace->update()`.
pub data Call : Type 0 where
  feed process_x_events workspace_update : Call

-- What one round is told: the result of `select`, whether i3 reported a change, whether the X
-- connection is readable, and the time at which each module is asked.
pub record Inputs : Type 0 where
  pub selected : ℤ
  pub workspace_changed : Bool
  pub x_ready : Bool
  pub now : ℤ

module _ {S : Type 0} (i : Interface S) where
  pub record Manager : Type 0 where
    pub modules : List S
    pub any_updated : Bool
    pub xcb_fd : ℤ
    pub calls : List Call

  -- The index of the last module named "workspace", which the constructor keeps.
  unfoldable pub find_workspace : ℕ → Option ℕ → List S → Option ℕ
  find_workspace n found [] = found
  find_workspace n found (m ∷ ms) =
      find_workspace (n + 1)
        (if bytes_eq (Module.name (i.base m)) (ascii "workspace") then some n else found) ms

  -- The modules are initialised in order up to the first that fails.
  unfoldable pub initialize_all_modules : List S → List S × Bool
  initialize_all_modules [] = ([], true)
  initialize_all_modules (m ∷ ms) =
      let (m', ready) = i.initialize m in
      let rest = initialize_all_modules ms in
      if ready then (m' ∷ rest.0, rest.1) else (m' ∷ ms, false)

  -- The loop of `updateModules`; the flag says whether any module was updated. Each module reads the
  -- clock itself; one reading stands for all of them.
  unfoldable pub update_each : ℤ → List S → List S × Bool
  update_each now [] = ([], false)
  update_each now (m ∷ ms) =
      let (m', updated) = check_and_update i now m in
      let (rest, any) = update_each now ms in (m' ∷ rest, updated || any)

  unfoldable pub update_modules : ℤ → Manager → Manager
  update_modules now b =
      let (ms, any) = update_each now b.modules in record b { modules = ms; any_updated = any }

  unfoldable pub update_workspace : ℕ → List S → List S
  update_workspace n [] = []
  update_workspace zero (m ∷ ms) = i.update m ∷ ms
  update_workspace (suc n) (m ∷ ms) = m ∷ update_workspace n ms

  abbrev pub call : Call → Manager → Manager
  call c b = record b { calls = b.calls ++ (c ∷ []) }

  -- `updateModules(); if (hasUpdates()) renderBar();`
  unfoldable pub refresh : ℤ → Manager → Manager
  unfolding update_modules
  refresh now b =
      let updated = update_modules now b in
      if updated.any_updated then call Call.feed updated else updated

  -- `handleXEvents`, in a round with these inputs; `handlers` is what the handlers of the presses do
  -- that it reads: they update modules and draw.
  unfoldable pub handle_x_events : (Inputs → Manager → Manager) → Inputs → Manager → Manager
  handle_x_events handlers t b =
      if not (eqb_ℤ b.xcb_fd (negsuc 0)) && t.x_ready
      then handlers t (call Call.process_x_events b)
      else b

  -- One round of the loop in `run`; `none` is the break behind a failed `select`.
  unfoldable pub round : (Inputs → Manager → Manager) → Option ℕ → Inputs → Manager → Option Manager
  unfolding refresh
  round handlers workspace t b =
      let b' = handle_x_events handlers t b in
      if ltb_ℤ t.selected (pos 0) then none else elim workspace [
        | none ↦ some (if eqb_ℤ t.selected (pos 0) then refresh t.now b' else b')
        | some n ↦
            let moved = record b' { modules = update_workspace n b'.modules } in
            some (
              if t.workspace_changed
              then refresh t.now (call Call.workspace_update moved)
              else if eqb_ℤ t.selected (pos 0)
              then refresh t.now b'
              else b')
      ]
