-- ===== src/Workspace/Owned.antt =====
-- Who owns the elements of modules/workspace.h: the two vectors and the heap stay in step.
use photonbar.Common.{
  ℕ, suc, ◌+◌, ◌≤◌, ◌≡◌, ◌∙◌, refl, ap, sym, Bool, true, false, ◌||◌, Option, none, some, List, [],
  ◌∷◌, ◌++◌, arith, ◌==◌, if◌then◌else◌, All, Bool-cases, inl, inr, length,
}
use photonbar.Common.Int.{ℤ}
use photonbar.BarElement.{BarElement}
use photonbar.Workspace.{
  Workspace, Reply, Action, remove, delete, remove_each, delete_each, clear_elements, add_element,
  add_elements, initialize_elements, write_at, rewrite, update_elements, new_workspace, initialize,
  subscribe,
}

abbrev pub Heap : Type 0
Heap = List (ℕ × BarElement Action)

abbrev pub pointers : Heap → List ℕ
pointers [] = []
pointers ((p, e) ∷ h) = p ∷ pointers h

-- Increasing from a bound on, and below another: no pointer occurs twice.
abbrev pub Rising : ℕ → List ℕ → ℕ → Type 0
Rising low [] high = low ≤ high
Rising low (p ∷ ps) high = (low ≤ p) × Rising (suc p) ps high

-- Both vectors hold the pointers of exactly the live allocations, each once, in the same order,
-- and all allocated before `next`: nothing dangles and nothing leaks.
pub record IsOwned (w : Workspace) : Type 0 where
  pub elements_eq : w.elements ≡ w.workspace_elements
  pub heap_eq : pointers w.heap ≡ w.workspace_elements
  pub rising : Rising 0 w.workspace_elements w.next

elem : ℕ → List ℕ → Bool
elem x [] = false
elem x (k ∷ ks) = k == x || elem x ks

remove_each_cons :
    (ks ps : List ℕ) (p : ℕ)
    → remove_each ks (p ∷ ps) ≡ (if elem p ks then remove_each ks ps else p ∷ remove_each ks ps)
unfolding elem
remove_each_cons [] ps p = refl
remove_each_cons (k ∷ ks) ps p = ground (arith, remove_each_cons ks (remove k ps) p)

remove_each-All : (ks ps : List ℕ) → All (λ p. elem p ks ≡ true) ps → remove_each ks ps ≡ []
remove_each-All [] [] h = refl
remove_each-All (k ∷ ks) [] h = remove_each-All ks [] tt
remove_each-All ks (p ∷ ps) h = remove_each_cons ks ps p ∙ rw h.0 (remove_each-All ks ps h.1)

elem_weaken :
    (k : ℕ) (ks ps : List ℕ) → All (λ p. elem p ks ≡ true) ps → All (λ p. elem p (k ∷ ks) ≡ true) ps
unfolding elem
elem_weaken k ks [] h = tt
elem_weaken k ks (p ∷ ps) h = (ground (arith, h.0), elem_weaken k ks ps h.1)

elem_self : (ps : List ℕ) → All (λ p. elem p ps ≡ true) ps
unfolding elem
elem_self [] = tt
elem_self (p ∷ ps) = (ground arith, elem_weaken p ps ps (elem_self ps))

pointers-delete : (k : ℕ) (h : Heap) → pointers (delete k h) ≡ remove k (pointers h)
pointers-delete k [] = refl
pointers-delete k ((p, e) ∷ h) = ground (arith, pointers-delete k h)

pointers-delete_each :
    (ks : List ℕ) (h : Heap) → pointers (delete_each ks h) ≡ remove_each ks (pointers h)
pointers-delete_each [] h = refl
pointers-delete_each (k ∷ ks) h =
    pointers-delete_each ks (delete k h) ∙ ap (remove_each ks) (pointers-delete k h)

no_pointers : (h : Heap) → pointers h ≡ [] → h ≡ []
no_pointers [] e = refl
no_pointers ((p, x) ∷ h) e = absurd (ground (arith, e))

-- Clearing deletes every element that is alive and leaves both vectors empty.
pub clear_elements-empties :
    (w : Workspace)
    → IsOwned w
    → ((clear_elements w).elements ≡ [])
      × ((clear_elements w).workspace_elements ≡ [])
      × ((clear_elements w).heap ≡ [])
unfolding clear_elements
clear_elements-empties w o =
    let all =
      remove_each-All w.workspace_elements w.workspace_elements (elem_self w.workspace_elements) in
    (
      ap (remove_each w.workspace_elements) o.elements_eq ∙ all,
      refl,
      no_pointers _ (
          pointers-delete_each w.workspace_elements w.heap
          ∙ ap (remove_each w.workspace_elements) o.heap_eq
          ∙ all),
    )

pointers_append : (g h : Heap) → pointers (g ++ h) ≡ pointers g ++ pointers h
pointers_append [] h = refl
pointers_append ((p, e) ∷ g) h = ap (◌∷◌ p) (pointers_append g h)

Rising-snoc :
    (low : ℕ) (ps : List ℕ) (high : ℕ)
    → Rising low ps high
    → Rising low (ps ++ (high ∷ [])) (high + 1)
Rising-snoc low [] high h = (h, omega arith)
Rising-snoc low (p ∷ ps) high h = (h.0, Rising-snoc (suc p) ps high h.1)

add_element-IsOwned : (r : Reply) (w : Workspace) → IsOwned w → IsOwned (add_element r w)
unfolding add_element
add_element-IsOwned r w o = record {
  elements_eq = ap (λ ps. ps ++ (w.next ∷ [])) o.elements_eq;
  heap_eq = pointers_append w.heap _ ∙ ap (λ ps. ps ++ (w.next ∷ [])) o.heap_eq;
  rising = Rising-snoc 0 w.workspace_elements w.next o.rising;
}

add_elements-IsOwned : (rs : List Reply) (w : Workspace) → IsOwned w → IsOwned (add_elements rs w)
add_elements-IsOwned [] w o = o
add_elements-IsOwned (r ∷ rs) w o =
    add_elements-IsOwned rs (add_element r w) (add_element-IsOwned r w o)

clear_elements-IsOwned : (w : Workspace) → IsOwned w → IsOwned (clear_elements w)
clear_elements-IsOwned w o =
    let c = clear_elements-empties w o in
    record {
      elements_eq = c.0 ∙ sym c.1;
      heap_eq = ap pointers c.2 ∙ sym c.1;
      rising = rw c.1 (omega arith);
    }

initialize_elements-IsOwned :
    (answer : Option (List Reply)) (w : Workspace)
    → IsOwned w
    → IsOwned (initialize_elements answer w)
unfolding initialize_elements
initialize_elements-IsOwned none w o = clear_elements-IsOwned w o
initialize_elements-IsOwned (some rs) w o =
    add_elements-IsOwned rs (clear_elements w) (clear_elements-IsOwned w o)

pointers_write : (k : ℕ) (r : Reply) (h : Heap) → pointers (write_at k r h) ≡ pointers h
pointers_write k r [] = refl
pointers_write k r ((p, e) ∷ h) = ground (arith, pointers_write k r h)

rewrite-IsOwned :
    (ks : List ℕ) (rs : List Reply) (w : Workspace) → IsOwned w → IsOwned (rewrite ks rs w)
rewrite-IsOwned [] rs w o = o
rewrite-IsOwned (k ∷ ks) [] w o = o
rewrite-IsOwned (k ∷ ks) (r ∷ rs) w o = rewrite-IsOwned ks rs _ (record {
  elements_eq = o.elements_eq;
  heap_eq = pointers_write k r w.heap ∙ o.heap_eq;
  rising = o.rising;
})

-- Whatever i3 answers, an update leaves the two vectors holding exactly the live elements.
pub update_elements-IsOwned :
    (first again : Option (List Reply)) (w : Workspace)
    → IsOwned w
    → IsOwned (update_elements first again w)
unfolding update_elements
update_elements-IsOwned none again w o = o
update_elements-IsOwned (some rs) again w o =
    let written = rewrite w.workspace_elements rs w in
    let kept = rewrite-IsOwned w.workspace_elements rs w o in
    elim (Bool-cases (length rs == length w.workspace_elements)) [
      | inl e ↦ rw e kept
      | inr e ↦ rw e (initialize_elements-IsOwned again written kept)
    ]

-- A module starts with exactly the elements of i3's first answer.
pub new_workspace-IsOwned :
    (fd : ℤ) (answer : Option (List Reply)) → IsOwned (new_workspace fd answer)
unfolding new_workspace initialize subscribe
new_workspace-IsOwned fd answer =
    initialize_elements-IsOwned answer _
      (record { elements_eq = refl; heap_eq = refl; rising = omega arith })
