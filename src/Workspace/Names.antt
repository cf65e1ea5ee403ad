-- ===== src/Workspace/Names.antt =====
-- What the elements of modules/workspace.h show, and what a click on them does, against the
-- answers of i3.
use photonbar.Common.{
  ℕ, suc, ◌+◌, ◌<◌, ◌≤◌, ◌≡◌, ◌∙◌, refl, ap, sym, Option, some, List, [], ◌∷◌, ◌++◌, arith, All,
  length, length-append, append-nil, append_assoc, ==_ne, ==_iff, ==_refl, take, drop, set,
  take_all, Bytes,
}
use photonbar.Common.Format.{store}
use photonbar.BarElement.{BarElement, EventType, new_element, set_event}
use photonbar.Workspace.{
  Workspace, Reply, Action, clear_elements, add_element, add_elements, initialize_elements,
  write_at, rewrite, update_elements, write_workspace, label,
}
use photonbar.Workspace.Owned.{IsOwned, Heap, pointers, Rising, clear_elements-empties}

-- The bytes of an element that are drawn.
abbrev pub shown : Heap → List Bytes
shown [] = []
shown ((p, e) ∷ h) = take e.content_len e.content ∷ shown h

-- What the handlers of the elements do.
abbrev pub handlers : Heap → List (List (ℕ × Action))
handlers [] = []
handlers ((p, e) ∷ h) = e.events ∷ handlers h

abbrev pub labels : List Reply → List Bytes
labels [] = []
labels (r ∷ rs) = label r.name ∷ labels rs

abbrev pub switches : List Reply → List (List (ℕ × Action))
switches [] = []
switches (r ∷ rs) = ((1, Action.switch_to_workspace r.name) ∷ []) ∷ switches rs

-- A name that fits the buffer between its two spaces.
abbrev pub IsShort : Reply → Type 0
IsShort r = length r.name ≤ 251

take_written : (t rest : Bytes) → take (length t) (set (t ++ (0 ∷ rest)) (length t) 0) ≡ t
take_written [] rest = refl
take_written (c ∷ t) rest = ap (◌∷◌ c) (take_written t rest)

length-label : (name : Bytes) → length (label name) ≡ length name + 2
length-label name = omega (arith, length-append name (b' ' ∷ []))

write_workspace-shows :
    (r : Reply) (e : BarElement Action)
    → IsShort r
    → (take (write_workspace r e).content_len (write_workspace r e).content ≡ label r.name)
      × ((write_workspace r e).events ≡ e.events)
unfolding write_workspace store
write_workspace-shows r e short = ground (
  arith,
  take_all 253 (label r.name) (omega (arith, short, length-label r.name)),
  take_written (label r.name) (drop (length (label r.name) + 1) e.content),
)

shown_append : (g h : Heap) → shown (g ++ h) ≡ shown g ++ shown h
shown_append [] h = refl
shown_append ((p, e) ∷ g) h = ap (◌∷◌ (take e.content_len e.content)) (shown_append g h)

handlers_append : (g h : Heap) → handlers (g ++ h) ≡ handlers g ++ handlers h
handlers_append [] h = refl
handlers_append ((p, e) ∷ g) h = ap (◌∷◌ e.events) (handlers_append g h)

made : Reply → BarElement Action
made r =
    set_event EventType.click_left (Action.switch_to_workspace r.name)
      (write_workspace r new_element)

add_elements_lem :
    (rs : List Reply) (w : Workspace)
    → All IsShort rs
    → (shown (add_elements rs w).heap ≡ shown w.heap ++ labels rs)
      × (handlers (add_elements rs w).heap ≡ handlers w.heap ++ switches rs)
unfolding add_element set_event made new_element
add_elements_lem [] w h = (sym (append-nil (shown w.heap)), sym (append-nil (handlers w.heap)))
add_elements_lem (r ∷ rs) w h =
    let rest = add_elements_lem rs (add_element r w) h.1 in
    let one = write_workspace-shows r new_element h.0 in
    ground (
      arith,
      rest,
      one,
      shown_append w.heap ((w.next, made r) ∷ []),
      handlers_append w.heap ((w.next, made r) ∷ []),
      append_assoc (shown w.heap) (label r.name ∷ []) (labels rs),
      append_assoc (handlers w.heap) (((1, Action.switch_to_workspace r.name) ∷ []) ∷ [])
          (switches rs),
    )

-- With names of up to 251 bytes, a fresh start shows one element for each workspace of i3, in the order of the answer, with its
-- name between two spaces, and a click on an element switches to the workspace it names.
initialize_elements-shows :
    (rs : List Reply) (w : Workspace)
    → IsOwned w
    → All IsShort rs
    → (shown (initialize_elements (some rs) w).heap ≡ labels rs)
      × (handlers (initialize_elements (some rs) w).heap ≡ switches rs)
unfolding initialize_elements
initialize_elements-shows rs w o h =
    let e = (clear_elements-empties w o).2 in
    let added = add_elements_lem rs (clear_elements w) h in
    (added.0 ∙ ap (λ g. shown g ++ labels rs) e, added.1 ∙ ap (λ g. handlers g ++ switches rs) e)

rewrite_heap : List ℕ → List Reply → Heap → Heap
rewrite_heap [] rs h = h
rewrite_heap (k ∷ ks) [] h = h
rewrite_heap (k ∷ ks) (r ∷ rs) h = rewrite_heap ks rs (write_at k r h)

rewrite-heap :
    (ks : List ℕ) (rs : List Reply) (w : Workspace)
    → (rewrite ks rs w).heap ≡ rewrite_heap ks rs w.heap
unfolding rewrite_heap
rewrite-heap [] rs w = refl
rewrite-heap (k ∷ ks) [] w = refl
rewrite-heap (k ∷ ks) (r ∷ rs) w = rewrite-heap ks rs _

rewrite_heap_cons :
    (low high : ℕ) (ks : List ℕ) (rs : List Reply) (k : ℕ) (e : BarElement Action) (h : Heap)
    → k < low
    → Rising low ks high
    → rewrite_heap ks rs ((k, e) ∷ h) ≡ ((k, e) ∷ rewrite_heap ks rs h)
unfolding rewrite_heap
rewrite_heap_cons low high [] rs k e h lt up = refl
rewrite_heap_cons low high (j ∷ ks) [] k e h lt up = refl
rewrite_heap_cons low high (j ∷ ks) (r ∷ rs) k e h lt up =
    rw (==_ne k j (omega (arith, up.0)))
      (rewrite_heap_cons (suc j) high ks rs k e (write_at j r h) (omega (arith, up.0)) up.1)

write_at_head :
    (k : ℕ) (r : Reply) (x : BarElement Action) (h : Heap)
    → write_at k r ((k, x) ∷ h) ≡ ((k, write_workspace r x) ∷ h)
write_at_head k r x h = rw (==_refl k) refl

rewrite_heap_lem :
    (low high : ℕ) (rs : List Reply) (h : Heap)
    → Rising low (pointers h) high
    → All IsShort rs
    → length rs ≡ length (pointers h)
    → (shown (rewrite_heap (pointers h) rs h) ≡ labels rs)
      × (handlers (rewrite_heap (pointers h) rs h) ≡ handlers h)
unfolding rewrite_heap
rewrite_heap_lem low high [] [] up short e = (refl, refl)
rewrite_heap_lem low high [] (x ∷ h) up short e = absurd (omega (arith, e))
rewrite_heap_lem low high (r ∷ rs) [] up short e = absurd (omega (arith, e))
rewrite_heap_lem low high (r ∷ rs) ((k, x) ∷ h) up short e =
    let rest = rewrite_heap_lem (suc k) high rs h up.1 short.1 (omega (arith, e)) in
    let one = write_workspace-shows r x short.0 in
    let q =
      ap (rewrite_heap (pointers h) rs) (write_at_head k r x h)
      ∙ rewrite_heap_cons (suc k) high (pointers h) rs k (write_workspace r x) h (omega arith)
          up.1 in
    (ap shown q ∙ rw (one.0, rest.0) refl, ap handlers q ∙ rw (one.1, rest.1) refl)

-- With names of up to 251 bytes, and while their number stays the same, an update shows the names that i3 now gives, in
-- its order, but leaves every handler as it was: a click still switches to the workspace for
-- which the element was made.
pub update_elements-same_count :
    (rs : List Reply) (again : Option (List Reply)) (w : Workspace)
    → IsOwned w
    → All IsShort rs
    → length rs ≡ length w.workspace_elements
    → (shown (update_elements (some rs) again w).heap ≡ labels rs)
      × (handlers (update_elements (some rs) again w).heap ≡ handlers w.heap)
unfolding update_elements
update_elements-same_count rs again w o short e =
    let lem =
      rewrite_heap_lem 0 w.next rs w.heap (rw o.heap_eq o.rising) short
        (e ∙ ap length (sym o.heap_eq)) in
    rw ((==_iff _ _).1 e, rewrite-heap w.workspace_elements rs w, sym o.heap_eq) lem
