-- ===== src/ProcessManager/Exclusion.antt =====
-- What one successful instance check does to the checks of other processes (process_manager.cpp).
use photonbar.Common.{
  Bool, true, false, ◌||◌, ◌≡◌, ◌≢◌, refl, ap, ◌∙◌, some, List, [], ◌∷◌, All, Bytes,
}
use photonbar.Common.Int.{ℤ, pos}
use photonbar.ProcessManager.{
  World, Os, ProcessManager, LockText, construct, get_lock_file_path, handle_existing_instances,
}
use photonbar.ProcessManager.Lock.{Held, handle_writes, handle-Held_refused}

-- A start without `--restart`: its process, its `verbose`, and what happens in the system before it.
pub record Attempt : Type 0 where
  pub os : Os
  pub verbose : Bool
  pub meanwhile : World → World

-- The checks of such starts, one after the other: the world they leave, and whether one succeeded.
abbrev pub attempts : List Attempt → World → World × Bool
attempts [] w = (w, false)
attempts (t ∷ later) w =
    let (pm, next, ok) = handle_existing_instances t.os construct false t.verbose (t.meanwhile w) in
    let (last, any) = attempts later next in (last, ok || any)

-- It asks for the same lock file, and before it neither that file nor the process `pid` is touched.
pub record IsRival (path : Bytes) (pid : ℤ) (t : Attempt) : Type 0 where
  pub same_lock : get_lock_file_path t.os ≡ path
  pub file_kept : (w : World) → (t.meanwhile w).files path ≡ w.files path
  pub still_runs : (w : World) → (t.meanwhile w).running pid ≡ w.running pid

rivals-refused :
    (path : Bytes) (pid : ℤ) (ts : List Attempt) (w : World)
    → All (IsRival path pid) ts
    → pid ≢ pos 0
    → w.files path ≡ some (LockText.number pid)
    → w.running pid ≡ true
    → ((attempts ts w).1 ≡ false)
      × ((attempts ts w).0.files path ≡ some (LockText.number pid))
      × ((attempts ts w).0.running pid ≡ true)
rivals-refused path pid [] w rivals real text runs = (refl, text, runs)
rivals-refused path pid (t ∷ ts) w rivals real text runs =
    let r = rivals.0 in
    let before = t.meanwhile w in
    let held : Held t.os before pid = record {
      text = ap before.files r.same_lock ∙ (r.file_kept w ∙ text);
      real = real;
      runs = r.still_runs w ∙ runs;
    } in
    let refused = handle-Held_refused t.os construct t.verbose before pid held in
    let next = (handle_existing_instances t.os construct false t.verbose before).1 in
    let rest =
      rivals-refused path pid ts next rivals.1 real
        (ap (λ f. f path) refused.2 ∙ (r.file_kept w ∙ text))
        (ap (λ f. f pid) refused.3 ∙ (r.still_runs w ∙ runs)) in
    (rw refused.0 rest.0, rest.1, rest.2)

-- Once one instance check has succeeded, with or without `--restart`, no later check without it
-- succeeds while that process runs, however many processes try, if nothing else touches the file in
-- between; and the file still names the first process.
pub handle-excludes :
    (os : Os) (pm : ProcessManager) (restart verbose : Bool) (w : World) (rivals : List Attempt)
    → let after = (handle_existing_instances os pm restart verbose w).1 in
      let path = get_lock_file_path os in
      (handle_existing_instances os pm restart verbose w).2 ≡ true
      → os.own_pid ≢ pos 0
      → after.running os.own_pid ≡ true
      → All (IsRival path os.own_pid) rivals
      → ((attempts rivals after).1 ≡ false)
        × ((attempts rivals after).0.files path ≡ some (LockText.number os.own_pid))
        × ((attempts rivals after).0.running os.own_pid ≡ true)
handle-excludes os pm restart verbose w rivals ok real runs each =
    rivals-refused (get_lock_file_path os) os.own_pid rivals _ each real
      (handle_writes os pm restart verbose w ok) runs
