-- ===== src/Main/Instances.antt =====
-- One instance at a time: what a whole start of the program does to the lock of another one.
use photonbar.Common.{true, false, ◌≡◌, none, some, List, Bytes, arith, bytes_eq_refl}
use photonbar.Common.Int.{ℤ}
use photonbar.ProcessManager.{
  World, Os, ProcessManager, construct, get_lock_file_path, read_lock_file, write_lock_file, claim,
  remove_lock_file, cleanup, kill_existing_instance, setup_signal_handlers,
  handle_existing_instances,
}
use photonbar.ProcessManager.Lock.{Held, handle_owns_lock, handle-Held_refused}
use photonbar.Main.{Options, Outcome, main, parse_args, default_options}

-- A start that gets as far as the bars, without `--no-lock`, has its own id in the lock file.
pub main-serving_owns :
    (os : Os) (args : List Bytes) (o : Options) (w : World) (pm : ProcessManager)
    → parse_args args default_options ≡ some o
    → o.no_lock ≡ false
    → (main os args w).1 ≡ Outcome.serving pm
    → read_lock_file os (some (get_lock_file_path os)) (main os args w).0 ≡ os.own_pid
unfolding main setup_signal_handlers read_lock_file
main-serving_owns os args o w pm parsed locked h =
    ground (arith, handle_owns_lock os construct o.restart_mode o.verbose w)

-- A second instance that is refused ends with status 1, and the destructor of its manager removes
-- the lock file of the instance that runs, if it may.
main-Held_unlocks :
    (os : Os) (args : List Bytes) (o : Options) (w : World) (pid : ℤ)
    → parse_args args default_options ≡ some o
    → (o.restart_mode ≡ false) × (o.no_lock ≡ false) × (o.kill_only ≡ false)
    → Held os w pid
    → ((v : World) → os.can_unlink v (get_lock_file_path os) ≡ true)
    → ((main os args w).1 ≡ Outcome.exited 1)
      × ((main os args w).0.files (get_lock_file_path os) ≡ none)
      × ((main os args w).0.running pid ≡ true)
unfolding main cleanup remove_lock_file
main-Held_unlocks os args o w pid parsed flags held free = ground (
  arith,
  handle-Held_refused os construct o.verbose w pid held,
  bytes_eq_refl (get_lock_file_path os),
  free (handle_existing_instances os construct false o.verbose w).1,
)

-- `--kill`, without `--help`, ends with status 1 and leaves every file and process as it was,
-- whatever the lock file says: the manager has no path yet when it is asked to kill.
pub main-kill_only_idle :
    (os : Os) (args : List Bytes) (o : Options) (w : World)
    → parse_args args default_options ≡ some o
    → o.kill_only ≡ true
    → ((main os args w).1 ≡ Outcome.exited 1)
      × ((main os args w).0.files ≡ w.files)
      × ((main os args w).0.running ≡ w.running)
unfolding main cleanup remove_lock_file construct kill_existing_instance read_lock_file
main-kill_only_idle os args o w parsed k = ground arith

-- While a running process holds the lock, a start without `--restart`, `--no-lock` and `--kill`
-- is refused with status 1, but the same start again is let through if the lock file can be unlinked
-- and then written: the first instance still runs, and two serve at once.
pub main-Held_admits_next :
    (os : Os) (args : List Bytes) (o : Options) (w : World) (pid : ℤ)
    → parse_args args default_options ≡ some o
    → (o.restart_mode ≡ false) × (o.no_lock ≡ false) × (o.kill_only ≡ false)
    → Held os w pid
    → ((v : World) → os.can_unlink v (get_lock_file_path os) ≡ true)
    → os.can_write (main os args w).0 (get_lock_file_path os) ≡ true
    → ((main os args w).1 ≡ Outcome.exited 1)
      × ((main os args (main os args w).0).1
          ≡ Outcome.serving (record { lock_file_path = some (get_lock_file_path os) }))
      × ((main os args (main os args w).0).0.running pid ≡ true)
unfolding main handle_existing_instances claim read_lock_file write_lock_file setup_signal_handlers
main-Held_admits_next os args o w pid parsed flags held free writable =
    let first = main-Held_unlocks os args o w pid parsed flags held free in ground (arith, first)
