-- ===== src/Audio/Connect.antt =====
-- modules/audio.h, `initPa` and `cleanupPa`: the connection to PulseAudio. The states that
-- `pa_context_get_state` gives, one for each turn of the main loop, are an argument.
use photonbar.Common.{
  ℕ, zero, suc, ◌+◌, ◌<◌, ◌≡◌, refl, ap, ◌∙◌, Bool, true, false, Option, none, some, List, [], ◌∷◌,
  ◌++◌, if◌then◌else◌, arith, ◌⊎◌, inl, inr,
}
use photonbar.Common.Int.{ℤ, pos, ltb_ℤ}

-- The states of a context that the loop tells apart: `busy` is any other.
pub data ContextState : Type 0 where
  ready failed terminated busy : ContextState

-- The loop from its turn `n` on, for at most `fuel` turns; `none` is a loop that still runs.
unfoldable pub await_context : ℕ → (ℕ → ContextState) → ℕ → Option Bool
await_context zero states n = none
await_context (suc fuel) states n =
    let rest = await_context fuel states (suc n) in
    elim (states n) [
      | ready ↦ some true
      | failed ↦ some false
      | terminated ↦ some false
      | busy ↦ rest
    ]

-- `connected` is what `pa_context_connect` returns.
unfoldable pub init_pa : ℕ → ℤ → (ℕ → ContextState) → Option Bool
init_pa fuel connected states =
    let waited = await_context fuel states 0 in
    if ltb_ℤ connected (pos 0) then some false else waited

pub data Release : Type 0 where
  disconnect unref free_mainloop : Release

-- Whether the context and the main loop are there.
unfoldable pub cleanup_pa : Bool → Bool → List Release
cleanup_pa context mainloop =
    (if context then Release.disconnect ∷ Release.unref ∷ [] else [])
    ++ (if mainloop then Release.free_mainloop ∷ [] else [])

abbrev pub is_ready : ContextState → Bool
is_ready ready = true
is_ready _ = false

-- The turns from `n` on wait for `k` rounds, and then the state is final.
abbrev pub Settles : (ℕ → ContextState) → ℕ → ℕ → Type 0
Settles states n zero = (states n ≡ ready) ⊎ (states n ≡ failed) ⊎ (states n ≡ terminated)
Settles states n (suc k) = (states n ≡ busy) × Settles states (suc n) k

await_context-ends :
    (states : ℕ → ContextState) (k n fuel : ℕ)
    → Settles states n k
    → k < fuel
    → await_context fuel states n ≡ some (is_ready (states (n + k)))
unfolding await_context
await_context-ends states k n zero h lt = absurd (omega arith)
await_context-ends states zero n (suc fuel) h lt =
    let here : n + 0 ≡ n = omega arith in
    elim h [
      | inl r ↦ rw (here, r, await_context) refl
      | inr (inl f) ↦ rw (here, f, await_context) refl
      | inr (inr e) ↦ rw (here, e, await_context) refl
    ]
await_context-ends states (suc k) n (suc fuel) h lt =
    let there : n + suc k ≡ suc n + k = omega arith in
    rw (there, h.0, await_context) (await_context-ends states k (suc n) fuel h.1 (omega arith))

-- Where the context was asked to connect and is ready, failed or terminated behind `k` turns in
-- which it was none of these, `initPa` returns behind that turn, and succeeds exactly if it is ready.
init_pa-ends :
    (states : ℕ → ContextState) (connected : ℤ) (k fuel : ℕ)
    → ltb_ℤ connected (pos 0) ≡ false
    → Settles states 0 k
    → k < fuel
    → init_pa fuel connected states ≡ some (is_ready (states k))
unfolding init_pa
init_pa-ends states connected k fuel asked h lt =
    let at : 0 + k ≡ k = omega arith in
    rw (asked, init_pa)
      (await_context-ends states k 0 fuel h lt ∙ ap (λ m. some (is_ready (states m))) at)
