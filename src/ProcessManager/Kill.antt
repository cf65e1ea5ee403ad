-- ===== src/ProcessManager/Kill.antt =====
-- `killExistingInstance` where it reports that there was no instance.
use photonbar.Common.{Bool, false, ◌≡◌, arith, inl, inr, Option-cases}
use photonbar.ProcessManager.{World, Os, ProcessManager, remove_lock_file, kill_existing_instance}

-- Where it reports that there was none, nothing was signalled: the processes are as before.
kill_spares :
    (os : Os) (pm : ProcessManager) (verbose : Bool) (w : World)
    → (kill_existing_instance os pm verbose w).1 ≡ false
    → (kill_existing_instance os pm verbose w).0.running ≡ w.running
unfolding kill_existing_instance remove_lock_file
kill_spares os pm verbose w h = elim (Option-cases pm.lock_file_path) [
  | inl e ↦ ground arith
  | inr (p, e) ↦ ground arith
]
