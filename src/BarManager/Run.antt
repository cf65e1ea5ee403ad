-- ===== src/BarManager/Run.antt =====
-- main.cpp, the life of one BarManager: its constructor, `initialize` and `run`. `set_render` is
-- `setRenderFunction` on a module.
use photonbar.Common.{
  ℕ, zero, suc, ◌+◌, ◌≡◌, refl, ap, ◌∙◌, ◌⊎◌, Bool, true, false, Option, none, some, List, [], ◌∷◌,
  ◌++◌, map, get_elem?, if◌then◌else◌, arith, inl, inr, Bool-cases, bytes_eq, ascii, All,
  All-get_elem,
}
use mathlib.Core.Path.{subst}
use mathlib.Core.Option.{some_inj, none-ne-some}
use photonbar.Common.Int.{ℤ}
use photonbar.Layout.{Sides}
use photonbar.Module.{Module, Interface, traits}
use photonbar.BarManager.{find_workspace, initialize_all_modules}
use photonbar.BarManager.Rounds.{initialize-All}
use photonbar.BarManager.Picture.{Turn, Bar, feed, rounds}
use photonbar.BarManager.Auto.{IsAuto, AllSet, IsKept}
use photonbar.BarManager.Current.{IsCurrent, rounds-IsCurrent}

-- The modules of the constructor, left before right, each with the render function.
unfoldable pub construct : {S : Type 0} → (S → S) → List S → List S → List S
construct set_render left right = map set_render (left ++ right)

-- `initialize()`, where it succeeds, then `run()`, which draws before its rounds; `none` is the
-- return behind a failed initialisation. The first picture is empty.
unfoldable pub start :
    {S A : Type 0}
    → Interface S
    → (List S → Sides A)
    → (Sides A → Sides A)
    → (A → List S → List S × Bool)
    → (ℕ → Bar S A → Bar S A)
    → List Turn
    → ℤ
    → List S
    → Option (Bar S A)
start i elements lay act i3 ts xcb_fd ms =
    let (ready, done) = initialize_all_modules i ms in
    let bar : Bar _ _ = record {
      modules = ready;
      xcb_fd = xcb_fd;
      picture = record { left = []; right = [] };
    } in
    if done
    then some (
        rounds i elements lay act i3 (find_workspace i 0 none ms) ts
          (feed i elements lay act i3 bar))
    else none

abbrev pub is_workspace : {S : Type 0} → Interface S → S → Bool
is_workspace i m = bytes_eq (Module.name (i.base m)) (ascii "workspace")

-- What `find_workspace` finds is the index of a module of that name, or what it was given.
find_workspace-named :
    {S : Type 0} (i : Interface S) (n : ℕ) (found : Option ℕ) (ms : List S) (k : ℕ)
    → find_workspace i n found ms ≡ some k
    → (found ≡ some k)
      ⊎ ((j : ℕ) × (m : S) × (k ≡ n + j) × (get_elem? ms j ≡ some m) × (is_workspace i m ≡ true))
unfolding find_workspace
find_workspace-named i n found [] k e = inl e
find_workspace-named i n found (m ∷ ms) k e = elim (Bool-cases (is_workspace i m)) [
  | inl named ↦ elim (find_workspace-named i (n + 1) (some n) ms k (rw named at e)) [
    | inl this ↦ inr (0, m, omega (arith, some_inj.0 this), refl, named)
    | inr (j, q, at, there, is) ↦ inr (suc j, q, omega (arith, at), there, is)
  ]
  | inr unnamed ↦ elim (find_workspace-named i (n + 1) found ms k (rw unnamed at e)) [
    | inl before ↦ inl before
    | inr (j, q, at, there, is) ↦ inr (suc j, q, omega (arith, at), there, is)
  ]
]

module _ {S : Type 0} (i : Interface S)
    (keeps : (m : S) → traits (i.base (i.update m)) ≡ traits (i.base m))
    (begins : (m : S) → traits (i.base (i.initialize m).0) ≡ traits (i.base m)) where
  IsAuto-initialize :
      (n : ℕ) (ms : List S) → IsAuto i n ms → IsAuto i n (map (λ m. (i.initialize m).0) ms)
  IsAuto-initialize n [] (m, e, a) = absurd (none-ne-some m e)
  IsAuto-initialize zero (q ∷ ms) (m, e, a) =
      ((i.initialize q).0, refl, ap (λ t. t.0) (begins q) ∙ rw (← some_inj.0 e) at a)
  IsAuto-initialize (suc n) (q ∷ ms) (m, e, a) = IsAuto-initialize n ms (m, e, a)

  AllSet-initialize : (ms : List S) → AllSet i ms → AllSet i (map (λ m. (i.initialize m).0) ms)
  AllSet-initialize [] h = tt
  AllSet-initialize (q ∷ ms) h = (ap (λ t. t.1) (begins q) ∙ h.0, AllSet-initialize ms h.1)

  -- A module named "workspace" is one with `autoUpdate`.
  abbrev NamedAuto : S → Type 0
  NamedAuto m = is_workspace i m ≡ true → (i.base m).auto_update ≡ true

  find_workspace-IsAuto :
      (ms : List S)
      → All NamedAuto ms
      → (n : ℕ) → find_workspace i 0 none ms ≡ some n
      → IsAuto i n ms
  find_workspace-IsAuto ms auto n e = elim (find_workspace-named i 0 none ms n e) [
    | inl impossible ↦ absurd (none-ne-some n impossible)
    | inr (j, m, at, there, is) ↦
        let same : j ≡ n = omega (arith, at) in
        (
          m,
          subst (λ k. get_elem? ms k ≡ some m) same there,
          All-get_elem NamedAuto ms j m auto there is,
        )
  ]

  module _ {A : Type 0} (elements : List S → Sides A) (lay : Sides A → Sides A)
      (act : A → List S → List S × Bool) (i3 : ℕ → Bar S A → Bar S A)
      (draws : (h : A) (ms : List S)
        → AllSet i ms
        → (act h ms).1 ≡ false
        → elements (act h ms).0 ≡ elements ms)
      (stays : (w : Option ℕ) (h : A) (ms : List S) → IsKept i w ms → IsKept i w (act h ms).0)
      (noticed_stays : (w : Option ℕ) (n : ℕ) (b : Bar S A)
        → IsKept i w b.modules
        → IsKept i w (i3 n b).modules) where
    -- Where a module named "workspace" has `autoUpdate` and all have their render functions, which
    -- handlers, updates, initialisations and the events of i3 keep, and a handler of such modules
    -- that does not draw changes no elements, a bar that has been initialised shows its modules as they are behind any number of rounds.
    pub start-IsCurrent :
        (ts : List Turn) (xcb_fd : ℤ) (ms : List S) {b : Bar S A}
        → All (λ m. is_workspace i m ≡ true → (i.base m).auto_update ≡ true) ms
        → AllSet i ms
        → start i elements lay act i3 ts xcb_fd ms ≡ some b
        → IsCurrent i elements lay (find_workspace i 0 none ms) b
    unfolding start feed
    start-IsCurrent ts xcb_fd ms {b} auto set e =
        let w = find_workspace i 0 none ms in
        elim (Bool-cases (initialize_all_modules i ms).1) [
          | inr failed ↦ absurd (none-ne-some b (rw failed at e))
          | inl done ↦
              let ready = initialize_all_modules i ms in
              let all = (initialize-All i ms done).1 in
              let first : Bar S A = record {
                modules = ready.0;
                xcb_fd = xcb_fd;
                picture = lay (elements ready.0);
              } in
              subst (IsCurrent i elements lay w) (some_inj.0 (rw done at e)) (
                rounds-IsCurrent i keeps elements lay act i3 w draws (stays w) (noticed_stays w) ts
                  first
                  (record {
                    shown = refl;
                    kept = (
                      (λ n f. rw all (IsAuto-initialize n ms (find_workspace-IsAuto ms auto n f))),
                      rw all (AllSet-initialize ms set),
                    );
                  }))
        ]
