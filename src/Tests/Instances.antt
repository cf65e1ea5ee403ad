-- ===== src/Tests/Instances.antt =====
-- The lock file of process_manager.cpp and the starts of main.cpp on a small system.
use photonbar.Common.{
  ℕ, true, false, ◌≡◌, refl, Option, none, some, [], ◌∷◌, Bytes, ascii, if◌then◌else◌, arith,
}
use photonbar.Common.Int.{pos, eqb_ℤ}
use photonbar.ProcessManager.{
  World, Os, LockText, Message, Disposition, construct, get_lock_file_path, read_lock_file,
  kill_existing_instance, handle_existing_instances, claim, write_lock_file, is_process_running,
  terminate, remove_lock_file,
}
use photonbar.ProcessManager.Lock.{Held, handle_owns_lock}
use photonbar.ProcessManager.Exclusion.{Attempt, IsRival, attempts, handle-excludes}
use photonbar.Main.{main, parse_args, default_options, Options, Outcome}
use photonbar.Main.Instances.{main-serving_owns, main-kill_only_idle, main-Held_admits_next}

-- Every signal ends the process at once.
abbrev os : Os
os = record {
  own_pid = pos 7;
  user = ascii "ana";
  indeterminate = pos 99;
  can_write = λ w path. true;
  can_unlink = λ w path. true;
  kill = λ pid s w. record w { running = λ q. if eqb_ℤ q pid then false else w.running q };
  sleep = λ n w. w;
}

-- Process 5 runs and holds the lock.
abbrev held : World
held = record {
  files = λ p. some (LockText.number (pos 5));
  running = λ q. eqb_ℤ q (pos 5);
  disposition = λ s. Disposition.default;
  out = [];
}

abbrev free : World
free = record held { files = λ p. none }

abbrev lock : Option Bytes
lock = some (get_lock_file_path os)

held_lem : Held os held (pos 5)
held_lem = record { text = refl; real = λ e. ground (arith, e); runs = refl }

handle_owns_lock_example :
    read_lock_file os lock (handle_existing_instances os construct true false held).1 ≡ pos 7
unfolding handle_existing_instances claim read_lock_file write_lock_file kill_existing_instance
    is_process_running terminate remove_lock_file construct
handle_owns_lock_example = handle_owns_lock os construct true false held refl

-- Two more processes, 8 and 9, that print something before they start.
abbrev rival : ℕ → Attempt
rival n = record {
  os = record os { own_pid = pos n };
  verbose = true;
  meanwhile = λ w. record w { out = Message.help ∷ w.out };
}

rival-IsRival : (n : ℕ) → IsRival (get_lock_file_path os) (pos 7) (rival n)
unfolding get_lock_file_path
rival-IsRival n = record { same_lock = refl; file_kept = λ w. refl; still_runs = λ w. refl }

abbrev seven : World
seven = record free { running = λ q. eqb_ℤ q (pos 7) }

handle-excludes_example :
    let after = (handle_existing_instances os construct false true seven).1 in
    let last = attempts (rival 8 ∷ rival 9 ∷ []) after in
    (last.1 ≡ false)
    × (last.0.files (get_lock_file_path os) ≡ some (LockText.number (pos 7)))
    × (last.0.running (pos 7) ≡ true)
unfolding handle_existing_instances claim read_lock_file write_lock_file construct
handle-excludes_example =
    handle-excludes os construct false true seven (rival 8 ∷ rival 9 ∷ []) refl
      (λ e. ground (arith, e)) refl (rival-IsRival 8, (rival-IsRival 9, tt))

abbrev restart : Options
restart = record default_options { restart_mode = true }

main-serving_owns_example : read_lock_file os lock (main os (ascii "--restart" ∷ []) held).0 ≡ pos 7
unfolding main parse_args handle_existing_instances claim read_lock_file write_lock_file
    kill_existing_instance is_process_running terminate remove_lock_file construct
main-serving_owns_example =
    main-serving_owns os (ascii "--restart" ∷ []) restart held (record { lock_file_path = lock })
      refl refl refl

abbrev kill_only : Options
kill_only = record default_options { kill_only = true }

main-kill_only_idle_example :
    ((main os (ascii "--kill" ∷ []) held).1 ≡ Outcome.exited 1)
    × ((main os (ascii "--kill" ∷ []) held).0.files ≡ held.files)
    × ((main os (ascii "--kill" ∷ []) held).0.running ≡ held.running)
unfolding parse_args
main-kill_only_idle_example = main-kill_only_idle os (ascii "--kill" ∷ []) kill_only held refl refl

main-Held_admits_next_example :
    ((main os [] held).1 ≡ Outcome.exited 1)
    × ((main os [] (main os [] held).0).1 ≡ Outcome.serving (record { lock_file_path = lock }))
    × ((main os [] (main os [] held).0).0.running (pos 5) ≡ true)
unfolding parse_args
main-Held_admits_next_example =
    main-Held_admits_next os [] default_options held (pos 5) refl (refl, refl, refl) held_lem
      (λ v. refl) refl
