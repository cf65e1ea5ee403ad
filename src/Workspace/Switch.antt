-- ===== src/Workspace/Switch.antt =====
-- modules/workspace.h, what surrounds the elements: `update`, the destructor, `setupSelectFds`, and
-- `switchToWorkspace`, whose child is a process of its own. What `fork` returns and whether `execlp`
-- finds i3-msg are arguments; nothing waits for the child.
use photonbar.Common.{ℕ, Bool, List, [], ◌∷◌, if◌then◌else◌, Bytes, ascii}
use photonbar.Common.Int.{ℤ, pos, negsuc, eqb_ℤ}
use photonbar.Workspace.{Workspace}

-- The descriptor that the module wants to be watched, and the set with it.
unfoldable pub setup_select_fds : Workspace → List ℤ → ℤ × List ℤ
setup_select_fds w fds =
    if eqb_ℤ w.i3_fd (negsuc 0) then (negsuc 0, fds) else (w.i3_fd, w.i3_fd ∷ fds)

-- How a process goes on behind the call: as the program that it became, or with a status, or behind
-- the call, which has drawn the bar or not.
pub data Process : Type 0 where
  became : (argv : List Bytes) → Process
  exited : (status : ℕ) → Process
  returned : (drawn : Bool) → Process

-- The process in which `fork` returns `pid`; `render` is whether a render function is set.
unfoldable pub switch_to_workspace : Bool → Bool → ℤ → Bytes → Process
switch_to_workspace found render pid ws_name =
    if eqb_ℤ pid (pos 0)
    then (if found
        then Process.became (ascii "i3-msg" ∷ ascii "workspace" ∷ ws_name ∷ [])
        else Process.exited 1)
    else Process.returned render
