-- ===== src/ProcessManager/Lock.antt =====
-- What process_manager.cpp promises about the lock file, whatever the other processes do.
use photonbar.Common.{
  Bool, true, false, ◌≡◌, ◌⊎◌, ◌≢◌, Option, none, some, Bytes, arith, bytes_eq_refl,
}
use photonbar.Common.Int.{ℤ, pos, eqb_ℤ_iff}
use photonbar.ProcessManager.{
  World, Os, ProcessManager, LockText, Message, say, get_lock_file_path, read_lock_file,
  is_process_running, write_lock_file, remove_lock_file, claim, handle_existing_instances,
}

-- The lock file names a process that runs.
pub record Held (os : Os) (w : World) (pid : ℤ) : Type 0 where
  pub text : w.files (get_lock_file_path os) ≡ some (LockText.number pid)
  pub real : pid ≢ pos 0
  pub runs : w.running pid ≡ true

-- A process id written to the lock file is what is read back from it.
read_lock_file-write_lock_file :
    (os : Os) (path : Option Bytes) (pid : ℤ) (w : World)
    → (write_lock_file os path pid w).1 ≡ true
    → read_lock_file os path (write_lock_file os path pid w).0 ≡ pid
unfolding read_lock_file write_lock_file
read_lock_file-write_lock_file os none pid w h = cc
read_lock_file-write_lock_file os (some p) pid w h = ground (arith, bytes_eq_refl p)

claim_owns :
    (os : Os) (path : Option Bytes) (m : Message) (w : World)
    → (claim os path m w).1 ≡ true
    → read_lock_file os path (claim os path m w).0 ≡ os.own_pid
unfolding claim read_lock_file
claim_owns os none m w h = cc
claim_owns os (some p) m w h = ground (arith, bytes_eq_refl p)

-- A check that succeeds has written the id of the calling process.
pub handle_writes :
    (os : Os) (pm : ProcessManager) (restart verbose : Bool) (w : World)
    → (handle_existing_instances os pm restart verbose w).2 ≡ true
    → (handle_existing_instances os pm restart verbose w).1.files (get_lock_file_path os)
      ≡ some (LockText.number os.own_pid)
unfolding handle_existing_instances claim write_lock_file
handle_writes os pm restart verbose w h = ground (arith, bytes_eq_refl (get_lock_file_path os))

-- When the instance check succeeds, on any of its three branches, the lock file holds the id of
-- the calling process.
pub handle_owns_lock :
    (os : Os) (pm : ProcessManager) (restart verbose : Bool) (w : World)
    → (handle_existing_instances os pm restart verbose w).2 ≡ true
    → read_lock_file os
        (some (get_lock_file_path os))
        (handle_existing_instances os pm restart verbose w).1
      ≡ os.own_pid
unfolding handle_existing_instances
handle_owns_lock os pm restart verbose w h = grind (arith, claim_owns)

-- An instance that finds the lock held by a running process, and was not asked to restart, is
-- refused; no file, process or signal disposition changes.
pub handle-Held_refused :
    (os : Os) (pm : ProcessManager) (verbose : Bool) (w : World) (pid : ℤ)
    → Held os w pid
    → let r = handle_existing_instances os pm false verbose w in
      (r.2 ≡ false)
      × (r.0.lock_file_path ≡ some (get_lock_file_path os))
      × (r.1.files ≡ w.files)
      × (r.1.running ≡ w.running)
      × (r.1.disposition ≡ w.disposition)
unfolding handle_existing_instances read_lock_file is_process_running
handle-Held_refused os pm verbose w pid h = ground (arith, eqb_ℤ_iff pid (pos 0))

-- Without a restart, a failed check means that a running process holds the lock, or that the
-- lock file cannot be written.
handle_refusal :
    (os : Os) (pm : ProcessManager) (verbose : Bool) (w : World)
    → (handle_existing_instances os pm false verbose w).2 ≡ false
    → let path = get_lock_file_path os in
      let pid = read_lock_file os (some path) w in
      ((pid ≢ pos 0) × (w.running pid ≡ true))
      ⊎ (os.can_write w path ≡ false)
      ⊎ (os.can_write (remove_lock_file os (some path) (say verbose Message.stale_detected w)) path
          ≡ false)
unfolding handle_existing_instances claim write_lock_file is_process_running
handle_refusal os pm verbose w h =
    ground (arith, eqb_ℤ_iff (read_lock_file os (some (get_lock_file_path os)) w) (pos 0))
