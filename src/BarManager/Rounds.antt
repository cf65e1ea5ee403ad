-- ===== src/BarManager/Rounds.antt =====
-- What a round of `BarManager::run` (main.cpp) does to the modules and to the picture.
use photonbar.Common.{
  ℕ, suc, ◌+◌, ◌≡◌, refl, Bool, true, false, ◌||◌, Option, none, some, List, [], ◌∷◌, ◌++◌, map,
  arith, if◌then◌else◌, All,
}
use photonbar.Common.Int.{ℤ, pos, eqb_ℤ_iff, ◌<ℤ◌}
use photonbar.Module.{Interface, should_update, check_and_update}
use photonbar.BarManager.{
  Manager, Inputs, Call, update_each, refresh, round, handle_x_events, initialize_all_modules,
}

-- How often the bar has been drawn.
abbrev pub feeds : List Call → ℕ
feeds [] = 0
feeds (Call.feed ∷ cs) = suc (feeds cs)
feeds (Call.process_x_events ∷ cs) = feeds cs
feeds (Call.workspace_update ∷ cs) = feeds cs

feeds-append : (cs ds : List Call) → feeds (cs ++ ds) ≡ feeds cs + feeds ds
feeds-append [] ds = omega arith
feeds-append (Call.feed ∷ cs) ds = omega (arith, feeds-append cs ds)
feeds-append (Call.process_x_events ∷ cs) ds = feeds-append cs ds
feeds-append (Call.workspace_update ∷ cs) ds = feeds-append cs ds

module _ {S : Type 0} (i : Interface S) where
  -- A module that is due, updated; any other as it was.
  abbrev pub updated_if_due : ℤ → S → S
  updated_if_due now m = if should_update now (i.base m) then i.update m else m

  abbrev pub any_due : ℤ → List S → Bool
  any_due now [] = false
  any_due now (m ∷ ms) = should_update now (i.base m) || any_due now ms

  -- `updateModules` updates exactly the modules that are due, and its flag says whether there
  -- was one.
  pub update_each_lem :
      (now : ℤ) (ms : List S) → update_each i now ms ≡ (map (updated_if_due now) ms, any_due now ms)
  unfolding update_each check_and_update
  update_each_lem now [] = refl
  update_each_lem now (m ∷ ms) = ground (arith, update_each_lem now ms)

  refresh_lem :
      (now : ℤ) (b : Manager i)
      → ((refresh i now b).modules ≡ map (updated_if_due now) b.modules)
        × (feeds (refresh i now b).calls ≡ feeds b.calls + (if any_due now b.modules then 1 else 0))
  unfolding refresh
  refresh_lem now b =
      ground (arith, update_each_lem now b.modules, feeds-append b.calls (Call.feed ∷ []))

  -- A timeout with no change of workspace: behind the handlers of the events, if there are any,
  -- exactly the due modules are updated, and the bar is drawn once more if there was one and not
  -- otherwise.
  pub round_timeout :
      (handlers : Inputs → Manager i → Manager i) (workspace : Option ℕ) (t : Inputs)
      (b : Manager i) {b' : Manager i}
      → t.selected ≡ pos 0
      → t.workspace_changed ≡ false
      → round i handlers workspace t b ≡ some b'
      → let seen = handle_x_events i handlers t b in
        (b'.modules ≡ map (updated_if_due t.now) seen.modules)
        × (feeds b'.calls ≡ feeds seen.calls + (if any_due t.now seen.modules then 1 else 0))
  unfolding round
  round_timeout handlers none t b idle same r =
      ground
        (arith, eqb_ℤ_iff t.selected (pos 0), refresh_lem t.now (handle_x_events i handlers t b))
  round_timeout handlers (some n) t b idle same r =
      ground
        (arith, eqb_ℤ_iff t.selected (pos 0), refresh_lem t.now (handle_x_events i handlers t b))

  -- Without events no handler runs.
  handle_x_events_silent :
      (handlers : Inputs → Manager i → Manager i) (t : Inputs) (b : Manager i)
      → t.x_ready ≡ false
      → handle_x_events i handlers t b ≡ b
  unfolding handle_x_events
  handle_x_events_silent handlers t b silent = ground arith

  -- Only a failed `select` ends the loop.
  round_ends :
      (handlers : Inputs → Manager i → Manager i) (workspace : Option ℕ) (t : Inputs)
      (b : Manager i)
      → ((round i handlers workspace t b ≡ none) → t.selected <ℤ pos 0)
        × (t.selected <ℤ pos 0 → round i handlers workspace t b ≡ none)
  unfolding round
  round_ends handlers none t b = ground arith
  round_ends handlers (some n) t b = ground arith

  -- Where the initialisation of the modules reports success, each of them succeeded and is kept as
  -- it initialised itself.
  pub initialize-All :
      (ms : List S)
      → (initialize_all_modules i ms).1 ≡ true
      → (All (λ m. (i.initialize m).1 ≡ true) ms)
        × ((initialize_all_modules i ms).0 ≡ map (λ m. (i.initialize m).0) ms)
  unfolding initialize_all_modules
  initialize-All [] h = (tt, refl)
  initialize-All (m ∷ ms) h = ground (arith, initialize-All ms)
