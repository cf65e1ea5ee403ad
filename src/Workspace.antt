-- ===== src/Workspace.antt =====
-- modules/workspace.h: the workspaces of i3. The elements are allocated with `new` and held in two
-- vectors of pointers, the module's `elements` and `workspaceElements`: pointers are numbers, and
-- `heap` holds what has been allocated and not deleted. What i3 answers, the results of `pipe` and
-- `fork` and what `read` returns are arguments; the process that `switchToWorkspace` starts is
-- in Workspace.Switch.
pub mod Owned
pub mod Names
pub mod Events
pub mod Switch
use photonbar.Common.{
  ℕ, zero, suc, ◌+◌, Bool, true, false, ◌&&◌, ◌||◌, Option, none, some, List, [], ◌∷◌, ◌++◌, map,
  ◌==◌, leb, not, if◌then◌else◌, Bytes, ascii, length, set,
}
use photonbar.Common.Int.{ℤ, pos, negsuc, eqb_ℤ}
use photonbar.Common.Format.{store, c_string}
use photonbar.Color.{Color}
use photonbar.BarElement.{BarElement, EventType, new_element, set_event, set_color}
use photonbar.Module.{Module, new_module}
use photonbar.Palette.{color_of, rgb}

pub data Action : Type 0 where
  switch_to_workspace : Bytes → Action

-- The fields of an i3 workspace that the module reads.
pub record Reply : Type 0 where
  pub name : Bytes
  pub focused : Bool

pub record Workspace : Type 0 where
  pub base : Module
  pub i3_fd : ℤ
  pub open_fds : List ℤ
  pub elements : List ℕ
  pub workspace_elements : List ℕ
  pub heap : List (ℕ × BarElement Action)
  pub next : ℕ
  -- Whether a byte outside of `content` has been written.
  pub out_of_bounds : Bool

unfoldable pub focused_color : Color
focused_color = color_of (ascii "#E0AAFF") (rgb 255 170 255)

unfoldable pub other_color : Color
other_color = color_of (ascii "#666666") (rgb 102 102 102)

-- `" %s "`.
abbrev pub label : Bytes → Bytes
label name = b' ' ∷ (name ++ (b' ' ∷ []))

-- The content and the colours that both loops give an element: `snprintf` keeps 253 bytes and
-- returns the length of the whole label, where a zero byte is then written.
unfoldable pub write_workspace : Reply → BarElement Action → BarElement Action
write_workspace r e =
    let text = label r.name in
    let written = record e {
      content = set (store 253 text e.content) (length text) 0;
      content_len = length text;
      dirty_content = true;
      underline = r.focused;
    } in
    if r.focused
    then record written { foreground_color = focused_color; underline_color = focused_color }
    else set_color other_color written

abbrev pub overflows : Reply → Bool
overflows r = leb 255 (length (label r.name))

-- `elements.erase(std::remove(...), ...)`.
abbrev pub remove : ℕ → List ℕ → List ℕ
remove k [] = []
remove k (p ∷ ps) = let rest = remove k ps in if p == k then rest else p ∷ rest

abbrev pub delete : ℕ → List (ℕ × BarElement Action) → List (ℕ × BarElement Action)
delete k [] = []
delete k ((p, e) ∷ h) = let rest = delete k h in if p == k then rest else (p, e) ∷ rest

abbrev pub remove_each : List ℕ → List ℕ → List ℕ
remove_each [] ps = ps
remove_each (k ∷ ks) ps = remove_each ks (remove k ps)

abbrev pub delete_each : List ℕ → List (ℕ × BarElement Action) → List (ℕ × BarElement Action)
delete_each [] h = h
delete_each (k ∷ ks) h = delete_each ks (delete k h)

unfoldable pub clear_elements : Workspace → Workspace
clear_elements w = record w {
  elements = remove_each w.workspace_elements w.elements;
  heap = delete_each w.workspace_elements w.heap;
  workspace_elements = [];
}

-- The body of the loop of `initializeElements`.
unfoldable pub add_element : Reply → Workspace → Workspace
add_element r w =
    let element =
      set_event EventType.click_left (Action.switch_to_workspace r.name)
        (write_workspace r new_element) in
    record w {
      heap = w.heap ++ ((w.next, element) ∷ []);
      next = w.next + 1;
      workspace_elements = w.workspace_elements ++ (w.next ∷ []);
      elements = w.elements ++ (w.next ∷ []);
      out_of_bounds = w.out_of_bounds || overflows r;
    }

abbrev pub add_elements : List Reply → Workspace → Workspace
add_elements [] w = w
add_elements (r ∷ rs) w = add_elements rs (add_element r w)

unfoldable pub initialize_elements : Option (List Reply) → Workspace → Workspace
initialize_elements none w = clear_elements w
initialize_elements (some rs) w = add_elements rs (clear_elements w)

-- The element behind a pointer is changed in place.
abbrev pub write_at : ℕ → Reply → List (ℕ × BarElement Action) → List (ℕ × BarElement Action)
write_at k r [] = []
write_at k r ((p, e) ∷ h) =
    let rest = write_at k r h in if p == k then (p, write_workspace r e) ∷ h else (p, e) ∷ rest

-- The loop of `updateElements`, up to the shorter of the two.
abbrev pub rewrite : List ℕ → List Reply → Workspace → Workspace
rewrite [] rs w = w
rewrite (k ∷ ks) [] w = w
rewrite (k ∷ ks) (r ∷ rs) w =
    rewrite ks rs
      (record w { heap = write_at k r w.heap; out_of_bounds = w.out_of_bounds || overflows r })

-- `i3ipc_get_workspaces` is asked again where the number of workspaces has changed.
unfoldable pub update_elements : Option (List Reply) → Option (List Reply) → Workspace → Workspace
update_elements none again w = w
update_elements (some rs) again w =
    let written = rewrite w.workspace_elements rs w in
    if length rs == length w.workspace_elements then written else initialize_elements again written

-- `subscribeI3`: the descriptor of the pipe, or -1.
unfoldable pub subscribe : ℤ → Workspace → Workspace
subscribe fd w = record w {
  i3_fd = fd;
  open_fds = if eqb_ℤ fd (negsuc 0) then w.open_fds else fd ∷ w.open_fds;
}

unfoldable pub initialize : ℤ → Workspace → Workspace × Bool
initialize fd w = let w' = subscribe fd w in (w', not (eqb_ℤ w'.i3_fd (negsuc 0)))

unfoldable pub new_workspace : ℤ → Option (List Reply) → Workspace
new_workspace fd answer =
    initialize_elements answer
      (initialize fd (record {
        base = new_module (ascii "workspace") true (pos 1);
        i3_fd = pos 0;
        open_fds = [];
        elements = [];
        workspace_elements = [];
        heap = [];
        next = 0;
        out_of_bounds = false;
      })).0

abbrev pub starts_with : Bytes → Bytes → Bool
starts_with [] s = true
starts_with (p ∷ ps) [] = false
starts_with (p ∷ ps) (c ∷ cs) = p == c && starts_with ps cs

-- `strstr(s, pattern) != NULL`.
abbrev pub strstr : Bytes → Bytes → Bool
strstr [] pattern = starts_with pattern []
strstr (c ∷ cs) pattern = let rest = strstr cs pattern in starts_with pattern (c ∷ cs) || rest

abbrev pub change : Bytes → Bytes
change kind = b'"' ∷ (ascii "change" ++ (b'"' ∷ b':' ∷ b'"' ∷ (kind ++ (b'"' ∷ []))))

unfoldable pub is_workspace_event : Bytes → Bool
is_workspace_event data_read =
    let json = c_string data_read in
    strstr json (change (ascii "focus"))
    || strstr json (change (ascii "init"))
    || strstr json (change (ascii "empty"))
    || strstr json (change (ascii "urgent"))

-- What the reads of one call return: some buffers, and then 0 (the end) or -1.
pub record Reads : Type 0 where
  pub buffers : List Bytes
  pub at_end : Bool

-- Whether a buffer with an event stops the loop.
abbrev pub any_event : List Bytes → Bool
any_event [] = false
any_event (s ∷ rest) = let later = any_event rest in is_workspace_event s || later

-- `close(i3Fd)`.
abbrev pub close : ℤ → List ℤ → List ℤ
close fd [] = []
close fd (f ∷ fs) = let rest = close fd fs in if eqb_ℤ f fd then fs else f ∷ rest

-- `reopened` is what `subscribeI3` gives, `first` and `again` what i3 answers.
unfoldable pub handle_i3_events :
    Bool → Reads → ℤ → Option (List Reply) → Option (List Reply) → Workspace → Workspace × Bool
handle_i3_events ready reads reopened first again w =
    if not (eqb_ℤ w.i3_fd (negsuc 0)) && ready
    then (let changed = any_event reads.buffers in
        let resubscribed =
          if not changed && reads.at_end
          then subscribe reopened (record w { open_fds = close w.i3_fd w.open_fds })
          else w in
        (if changed then update_elements first again resubscribed else resubscribed, changed))
    else (w, false)
