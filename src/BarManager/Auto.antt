-- ===== src/BarManager/Auto.antt =====
-- Modules with `autoUpdate` among those of a bar (main.cpp): they are due at every round.
use photonbar.Common.{
  ℕ, zero, suc, ◌≡◌, refl, ap, ◌∙◌, true, false, Option, some, All, List, [], ◌∷◌, map, get_elem?,
  arith, inl, inr, Bool-cases,
}
use mathlib.Core.Option.{some_inj, none-ne-some}
use photonbar.Common.Int.{ℤ}
use photonbar.Module.{Interface, should_update, traits}
use photonbar.BarManager.{update_workspace}
use photonbar.BarManager.Rounds.{updated_if_due, any_due}

-- The `n`-th module is one with `autoUpdate`, as the module of the workspaces is.
abbrev pub IsAuto : {S : Type 0} → Interface S → ℕ → List S → Type 0
IsAuto {S} i n ms = (m : S) × (get_elem? ms n ≡ some m) × ((i.base m).auto_update ≡ true)

-- Every module has a render function.
abbrev pub AllSet : {S : Type 0} → Interface S → List S → Type 0
AllSet i ms = All (λ m. (i.base m).render_set ≡ true) ms

-- The module of the workspaces, where there is one, is one with `autoUpdate`, and every module has
-- a render function.
abbrev pub IsKept : {S : Type 0} → Interface S → Option ℕ → List S → Type 0
IsKept i workspace ms = ((n : ℕ) → workspace ≡ some n → IsAuto i n ms) × AllSet i ms

module _ {S : Type 0} (i : Interface S)
    (keeps : (m : S) → traits (i.base (i.update m)) ≡ traits (i.base m)) where
  auto_due : (now : ℤ) (m : S) → (i.base m).auto_update ≡ true → should_update now (i.base m) ≡ true
  unfolding should_update
  auto_due now m e = rw e refl

  pub IsAuto-any_due : (now : ℤ) (n : ℕ) (ms : List S) → IsAuto i n ms → any_due i now ms ≡ true
  IsAuto-any_due now n [] (m, e, a) = absurd (none-ne-some m e)
  IsAuto-any_due now zero (q ∷ ms) (m, e, a) = rw (auto_due now q (rw (← some_inj.0 e) at a)) refl
  IsAuto-any_due now (suc n) (q ∷ ms) (m, e, a) =
      rw (IsAuto-any_due now n ms (m, e, a)) (ground arith)

  IsAuto-update_workspace :
      (n k : ℕ) (ms : List S) → IsAuto i k ms → IsAuto i k (update_workspace i n ms)
  unfolding update_workspace
  IsAuto-update_workspace n k [] (m, e, a) = absurd (none-ne-some m e)
  IsAuto-update_workspace zero zero (q ∷ ms) (m, e, a) =
      (i.update q, refl, ap (λ t. t.0) (keeps q) ∙ rw (← some_inj.0 e) at a)
  IsAuto-update_workspace zero (suc k) (q ∷ ms) a = a
  IsAuto-update_workspace (suc n) zero (q ∷ ms) a = a
  IsAuto-update_workspace (suc n) (suc k) (q ∷ ms) a = IsAuto-update_workspace n k ms a

  updated-traits : (now : ℤ) (m : S) → traits (i.base (updated_if_due i now m)) ≡ traits (i.base m)
  updated-traits now m = elim (Bool-cases (should_update now (i.base m))) [
    | inl due ↦ rw due (keeps m)
    | inr early ↦ rw early refl
  ]

  IsAuto-map :
      (now : ℤ) (n : ℕ) (ms : List S) → IsAuto i n ms → IsAuto i n (map (updated_if_due i now) ms)
  IsAuto-map now n [] (m, e, a) = absurd (none-ne-some m e)
  IsAuto-map now zero (q ∷ ms) (m, e, a) = (
    updated_if_due i now q,
    refl,
    ap (λ t. t.0) (updated-traits now q) ∙ rw (← some_inj.0 e) at a,
  )
  IsAuto-map now (suc n) (q ∷ ms) (m, e, a) = IsAuto-map now n ms (m, e, a)

  -- Where no module is due, the update changes none.
  pub none_due :
      (now : ℤ) (ms : List S) → any_due i now ms ≡ false → map (updated_if_due i now) ms ≡ ms
  none_due now [] e = refl
  none_due now (m ∷ ms) e = elim (Bool-cases (should_update now (i.base m))) [
    | inl due ↦ absurd (ground arith)
    | inr early ↦ rw (early, none_due now ms (rw early at e)) refl
  ]

  AllSet-update_workspace : (n : ℕ) (ms : List S) → AllSet i ms → AllSet i (update_workspace i n ms)
  unfolding update_workspace
  AllSet-update_workspace n [] h = tt
  AllSet-update_workspace zero (q ∷ ms) h = (ap (λ t. t.1) (keeps q) ∙ h.0, h.1)
  AllSet-update_workspace (suc n) (q ∷ ms) h = (h.0, AllSet-update_workspace n ms h.1)

  AllSet-map : (now : ℤ) (ms : List S) → AllSet i ms → AllSet i (map (updated_if_due i now) ms)
  AllSet-map now [] h = tt
  AllSet-map now (q ∷ ms) h = (ap (λ t. t.1) (updated-traits now q) ∙ h.0, AllSet-map now ms h.1)

  pub IsKept-map :
      (workspace : Option ℕ) (now : ℤ) (ms : List S)
      → IsKept i workspace ms
      → IsKept i workspace (map (updated_if_due i now) ms)
  IsKept-map workspace now ms h = ((λ n e. IsAuto-map now n ms (h.0 n e)), AllSet-map now ms h.1)

  pub IsKept-update_workspace :
      (workspace : Option ℕ) (n : ℕ) (ms : List S)
      → IsKept i workspace ms
      → IsKept i workspace (update_workspace i n ms)
  IsKept-update_workspace workspace n ms h =
      ((λ k e. IsAuto-update_workspace n k ms (h.0 k e)), AllSet-update_workspace n ms h.1)
