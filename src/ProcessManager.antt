-- ===== src/ProcessManager.antt =====
-- process_manager.cpp, process_manager.h: the lock file that keeps one instance running, and the
-- end of an existing instance. The operating system is a parameter: what `kill` and `sleep` let
-- other processes do to the world, which opens for writing and which unlinks succeed, and the
-- caller's identity. A null path opens nothing and unlinks nothing. A file that could be opened takes
-- the few bytes of a number: a full disk is not modelled. The value of `lock_file >> pid` is classified
-- by what the stream's operator documents: a number, 0 for text that is no number, and no
-- assignment at all for a file with nothing to read.
pub mod Lock
pub mod Kill
pub mod Exclusion
use photonbar.Common.{
  ℕ, Bool, true, false, not, Option, none, some, List, [], ◌∷◌, ◌++◌, if◌then◌else◌, Bytes,
  bytes_eq, ascii, take,
}
use photonbar.Common.Int.{ℤ, pos, eqb_ℤ}

pub data LockText : Type 0 where
  number : ℤ → LockText
  junk : LockText
  blank : LockText

pub data Signal : Type 0 where
  sigterm sigkill sigint sighup : Signal

-- What a signal does to this process (`signal()`).
pub data Disposition : Type 0 where
  default ignored handler : Disposition

pub data Message : Type 0 where
  no_instance stale_removed terminating forcing terminated stale_detected : Message
  restarting already_running use_restart lock_failed lock_failed_restart : Message
  signal_received help : Message

-- Everything outside the process that the code reads or changes, and what it prints.
pub record World : Type 0 where
  pub files : Bytes → Option LockText
  pub running : ℤ → Bool
  pub disposition : Signal → Disposition
  pub out : List Message

pub record Os : Type 0 where
  pub own_pid : ℤ
  pub user : Bytes
  pub indeterminate : ℤ
  pub can_write : World → Bytes → Bool
  pub can_unlink : World → Bytes → Bool
  pub kill : ℤ → Signal → World → World
  pub sleep : ℕ → World → World

-- `lockFilePath`; the null pointer until `handleExistingInstances` sets it.
pub record ProcessManager : Type 0 where
  pub lock_file_path : Option Bytes

abbrev pub update_file :
    (Bytes → Option LockText) → Bytes → Option LockText → Bytes → Option LockText
update_file files path v q = if bytes_eq q path then v else files q

abbrev pub print : Message → World → World
print m w = record w { out = w.out ++ (m ∷ []) }

abbrev pub say : Bool → Message → World → World
say verbose m w = if verbose then print m w else w

unfoldable pub construct : ProcessManager
construct = record { lock_file_path = none }

-- The buffer holds 511 bytes and the terminator.
unfoldable pub get_lock_file_path : Os → Bytes
get_lock_file_path os = take 511 (ascii "/tmp/myBar_" ++ (os.user ++ ascii ".lock"))

unfoldable pub is_process_running : World → ℤ → Bool
is_process_running w pid = w.running pid

read_text : Os → Option LockText → ℤ
read_text os none = pos 0
read_text os (some (LockText.number pid)) = pid
read_text os (some LockText.junk) = pos 0
read_text os (some LockText.blank) = os.indeterminate

unfoldable pub read_lock_file : Os → Option Bytes → World → ℤ
unfolding read_text
read_lock_file os none w = pos 0
read_lock_file os (some path) w = read_text os (w.files path)

unfoldable pub write_lock_file : Os → Option Bytes → ℤ → World → World × Bool
write_lock_file os none pid w = (w, false)
write_lock_file os (some path) pid w =
    if os.can_write w path
    then (record w { files = update_file w.files path (some (LockText.number pid)) }, true)
    else (w, false)

-- The result of `unlink` is not looked at.
unfoldable pub remove_lock_file : Os → Option Bytes → World → World
remove_lock_file os none w = w
remove_lock_file os (some path) w =
    if os.can_unlink w path then record w { files = update_file w.files path none } else w

-- From `kill(existingPid, SIGTERM)` on.
unfoldable pub terminate : Os → Option Bytes → ℤ → Bool → World → World
terminate os path pid verbose w =
    let asked = os.sleep 2 (os.kill pid Signal.sigterm (say verbose Message.terminating w)) in
    let forced = os.sleep 1 (os.kill pid Signal.sigkill (say verbose Message.forcing asked)) in
    let ended = if is_process_running asked pid then forced else asked in
    say verbose Message.terminated (remove_lock_file os path ended)

unfoldable pub kill_existing_instance : Os → ProcessManager → Bool → World → World × Bool
kill_existing_instance os pm verbose w =
    let pid = read_lock_file os pm.lock_file_path w in
    if eqb_ℤ pid (pos 0)
    then (say verbose Message.no_instance w, false)
    else if not (is_process_running w pid)
    then (remove_lock_file os pm.lock_file_path (say verbose Message.stale_removed w), false)
    else (terminate os pm.lock_file_path pid verbose w, true)

-- `if (!writeLockFile(getpid())) { …; return false; } return true;`
unfoldable pub claim : Os → Option Bytes → Message → World → World × Bool
unfolding write_lock_file
claim os path failure w =
    let (w', written) = write_lock_file os path os.own_pid w in
    if written then (w', true) else (print failure w', false)

unfoldable pub handle_existing_instances :
    Os → ProcessManager → Bool → Bool → World → ProcessManager × World × Bool
handle_existing_instances os pm restart_mode verbose w =
    let path = some (get_lock_file_path os) in
    let pm' : ProcessManager = record pm { lock_file_path = path } in
    let pid = read_lock_file os path w in
    let fresh = claim os path Message.lock_failed w in
    let stale =
      claim os path Message.lock_failed
        (remove_lock_file os path (say verbose Message.stale_detected w)) in
    let killed = (kill_existing_instance os pm' verbose (say verbose Message.restarting w)).0 in
    let restarted = claim os path Message.lock_failed_restart (os.sleep 1 killed) in
    let refused = say verbose Message.use_restart (say verbose Message.already_running w) in
    if eqb_ℤ pid (pos 0)
    then (pm', fresh.0, fresh.1)
    else if not (is_process_running w pid)
    then (pm', stale.0, stale.1)
    else if restart_mode
    then (pm', restarted.0, restarted.1)
    else (pm', refused, false)

unfoldable pub cleanup : Os → ProcessManager → World → World
unfolding remove_lock_file
cleanup os pm w = remove_lock_file os pm.lock_file_path w

-- `gInstance` is set while the object lives; the handler ends the process with status 0.
unfoldable pub signal_handler : Os → Option ProcessManager → World → World × Option ℕ
unfolding cleanup
signal_handler os none w = (w, none)
signal_handler os (some pm) w = (cleanup os pm (print Message.signal_received w), some 0)

on_signal : (Signal → Disposition) → Signal → Disposition
on_signal d Signal.sigterm = Disposition.handler
on_signal d Signal.sigint = Disposition.handler
on_signal d Signal.sighup = Disposition.ignored
on_signal d Signal.sigkill = d Signal.sigkill

unfoldable pub setup_signal_handlers : World → World
unfolding on_signal
setup_signal_handlers w = record w { disposition = on_signal w.disposition }
