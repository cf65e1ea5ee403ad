-- ===== src/Monitors/Chain/Links.antt =====
-- bar.h, `monitorAdd`, and the walks `for (mon = monhead; mon; mon = mon->next)`. A monitor_t is
-- an address; the heap has a `next` and a `prev` for each. Until there are two, `montail` is null.
use photonbar.Common.{
  ℕ, zero, suc, ◌≡◌, ◌≢◌, ap, Option, none, some, List, [], ◌∷◌, ◌++◌, All, arith, length, ◌==◌,
  if◌then◌else◌,
}

pub record Links : Type 0 where
  pub monhead : Option ℕ
  pub montail : Option ℕ
  pub next : ℕ → Option ℕ
  pub prev : ℕ → Option ℕ

abbrev pub link : (ℕ → Option ℕ) → ℕ → ℕ → ℕ → Option ℕ
link f a b q = if q == a then some b else f q

add_second : Links → ℕ → Option ℕ → ℕ → Links
add_second c mon none head = record c {
  montail = some mon;
  next = link c.next head mon;
  prev = link c.prev mon head;
}
add_second c mon (some tail) head = record c {
  prev = link c.prev mon tail;
  next = link c.next tail mon;
  montail = some mon;
}

add_to : Links → ℕ → Option ℕ → Links
unfolding add_second
add_to c mon none = record c { monhead = some mon }
add_to c mon (some head) = add_second c mon c.montail head

unfoldable pub monitor_add : ℕ → Links → Links
unfolding add_to
monitor_add mon c = add_to c mon c.monhead

-- The addresses that a walk of at most `fuel` steps meets.
unfoldable pub walk : ℕ → (ℕ → Option ℕ) → Option ℕ → List ℕ
walk zero next at = []
walk (suc fuel) next none = []
walk (suc fuel) next (some a) = a ∷ walk fuel next (next a)

-- From `a` on the links go through `rest` and end at `z`.
abbrev Runs : (ℕ → Option ℕ) → ℕ → List ℕ → ℕ → Type 0
Runs next a [] z = (a ≡ z) × (next a ≡ none)
Runs next a (b ∷ rest) z = (next a ≡ some b) × Runs next b rest z

-- The list holds the monitors `ids`, in this order.
pub data Holds (c : Links) : List ℕ → Type 0 where
  empty : c.monhead ≡ none → c.montail ≡ none → Holds c []
  one : {a : ℕ} → c.monhead ≡ some a → c.montail ≡ none → c.next a ≡ none → Holds c (a ∷ [])
  more :
      {a b z : ℕ} {rest : List ℕ}
      → c.monhead ≡ some a
      → c.montail ≡ some z
      → Runs c.next a (b ∷ rest) z
      → Holds c (a ∷ b ∷ rest)

-- A monitor fresh from calloc: linked nowhere, and not in the list.
pub record IsFresh (c : Links) (ids : List ℕ) (mon : ℕ) : Type 0 where
  pub unlinked : c.next mon ≡ none
  pub apart : All (λ a. a ≢ mon) ids

Runs-end :
    (next : ℕ → Option ℕ) (a : ℕ) (rest : List ℕ) (z : ℕ) → Runs next a rest z → next z ≡ none
Runs-end next a [] z h = rw h.0 at h.1
Runs-end next a (b ∷ rest) z h = Runs-end next b rest z h.1

Runs-snoc :
    (next : ℕ → Option ℕ) (a : ℕ) (rest : List ℕ) (z mon : ℕ)
    → Runs next a rest z
    → next mon ≡ none
    → All (λ x. x ≢ mon) (a ∷ rest)
    → Runs (link next z mon) a (rest ++ (mon ∷ [])) mon
Runs-snoc next a [] z mon h fresh apart = ground arith
Runs-snoc next a (b ∷ rest) z mon h fresh apart =
    let end = Runs-end next b rest z h.1 in
    (ground arith, Runs-snoc next b rest z mon h.1 fresh apart.1)

walk-Runs :
    (next : ℕ → Option ℕ) (a : ℕ) (rest : List ℕ) (z : ℕ)
    → Runs next a rest z
    → walk (suc (suc (length rest))) next (some a) ≡ a ∷ rest
unfolding walk
walk-Runs next a [] z h = rw h.1
walk-Runs next a (b ∷ rest) z h = rw h.0 (ap (◌∷◌ a) (walk-Runs next b rest z h.1))

-- Adding a fresh monitor appends it: the list held before is held, with the monitor behind it.
pub monitor_add-Holds :
    {c : Links} {ids : List ℕ} (mon : ℕ)
    → Holds c ids
    → IsFresh c ids mon
    → Holds (monitor_add mon c) (ids ++ (mon ∷ []))
unfolding monitor_add
monitor_add-Holds {c} mon (Holds.empty e t) f =
    Holds.one (ground arith) (ground arith) (ground arith)
monitor_add-Holds {c} mon (Holds.one {a} e t n) f =
    Holds.more {z = mon} (ground arith) (ground arith) (ground arith)
monitor_add-Holds {c} mon (Holds.more {a} {b} {z} {rest} e t r) f =
    let appended = Runs-snoc c.next a (b ∷ rest) z mon r f.unlinked f.apart in
    Holds.more {z = mon} (ground arith) (ground arith) (ground arith)

-- A walk from the head meets exactly the monitors held, in the order of their additions, and
-- ends at the null link.
walk-Holds :
    {c : Links} {ids : List ℕ} → Holds c ids → walk (suc (length ids)) c.next c.monhead ≡ ids
unfolding walk
walk-Holds (Holds.empty e t) = rw e
walk-Holds (Holds.one e t n) = rw (e, n)
walk-Holds {c} (Holds.more {a} {b} {z} {rest} e t r) = rw e (walk-Runs c.next a (b ∷ rest) z r)
