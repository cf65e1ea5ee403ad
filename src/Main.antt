-- ===== src/Main.antt =====
-- main.cpp, `main` up to the threads and after them: the arguments, the instance check and the
-- status the process ends with. Returning from `main` destroys the ProcessManager, whose
-- destructor is `cleanup`; `--help` returns before it is constructed.
pub mod Instances
use photonbar.Common.{
  ℕ, Bool, true, false, Option, none, some, List, [], ◌∷◌, if◌then◌else◌, Bytes, bytes_eq, ascii,
}
use photonbar.ProcessManager.{
  World, Os, ProcessManager, Message, print, construct, kill_existing_instance,
  handle_existing_instances, setup_signal_handlers, cleanup,
}

pub record Options : Type 0 where
  pub restart_mode : Bool
  pub no_lock : Bool
  pub kill_only : Bool
  pub verbose : Bool

abbrev pub default_options : Options
default_options = record {
  restart_mode = false;
  no_lock = false;
  kill_only = false;
  verbose = true;
}

-- One argument; `none` for `--help`. An unknown argument is skipped.
unfoldable pub read_arg : Bytes → Options → Option Options
read_arg a o =
    if bytes_eq a (ascii "--restart")
    then some (record o { restart_mode = true })
    else if bytes_eq a (ascii "--no-lock")
    then some (record o { no_lock = true })
    else if bytes_eq a (ascii "--kill")
    then some (record o { kill_only = true })
    else if bytes_eq a (ascii "--quiet")
    then some (record o { verbose = false })
    else if bytes_eq a (ascii "--help")
    then none
    else some o

-- The loop over argv[1], argv[2], …
unfoldable pub parse_args : List Bytes → Options → Option Options
unfolding read_arg
parse_args [] o = some o
parse_args (a ∷ rest) o = elim (read_arg a o) [ none ↦ none | some o' ↦ parse_args rest o' ]

-- How far `main` got: it returned a status, or the bars run under this manager.
pub data Outcome : Type 0 where
  exited : ℕ → Outcome
  serving : ProcessManager → Outcome

-- `return status;` with the manager in scope.
abbrev pub leave : Os → ProcessManager → ℕ → World → World × Outcome
leave os pm status w = (cleanup os pm w, Outcome.exited status)

pub serve : Options → Os → World → World × Outcome
serve o os w =
    let (pm, w', ready) = handle_existing_instances os construct o.restart_mode o.verbose w in
    if o.no_lock
    then (setup_signal_handlers w, Outcome.serving construct)
    else if ready
    then (setup_signal_handlers w', Outcome.serving pm)
    else leave os pm 1 w'

main_with : Option Options → Os → World → World × Outcome
unfolding serve
main_with none os w = (print Message.help w, Outcome.exited 0)
main_with (some o) os w =
    let (w', killed) = kill_existing_instance os construct o.verbose w in
    if o.kill_only then leave os construct (if killed then 0 else 1) w' else serve o os w

unfoldable pub main : Os → List Bytes → World → World × Outcome
unfolding main_with
main os args w = main_with (parse_args args default_options) os w

-- After both threads have joined: `cleanup()`, then the destructor.
unfoldable pub main_end : Os → ProcessManager → World → World × Outcome
main_end os pm w = leave os pm 0 (cleanup os pm w)
