-- ===== src/Monitors/Clones.antt =====
-- The loops over the outputs in `getRandrMonitors` (bar.h) leave no rectangle that contains
-- another.
use photonbar.Common.{
  ℕ, zero, suc, ◌+◌, ◌<◌, ◌≡◌, ◌≢◌, refl, ap, ◌∙◌, true, false, some, Option-cases, List, [], ◌∷◌,
  length, get_elem?, ◌==◌, arith, inl, inr, Bool-cases, ==_iff,
}
use native.Mathlib.Numerals.{add-one}
use photonbar.Common.Int.{ℤ}
use photonbar.Monitors.{Rect, contains, is_clone, shade_one, shade, round, rounds, drop_clones}

pub get-shade :
    (i : ℕ) (ri : Rect) (j : ℕ) (rs : List Rect) (v : ℤ) (k m : ℕ) {r : Rect}
    → m ≡ j + k
    → get_elem? rs k ≡ some r
    → get_elem? (shade i ri j rs v).0 k ≡ some (shade_one i ri m r)
unfolding shade
get-shade i ri j [] v k m e h = cc
get-shade i ri j (x ∷ rs) v zero m e h = ground arith
get-shade i ri j (x ∷ rs) v (suc k) m e h = get-shade i ri (j + 1) rs _ k m (omega arith) h

shade-get :
    (i : ℕ) (ri : Rect) (j : ℕ) (rs : List Rect) (v : ℤ) (k m : ℕ) {r' : Rect}
    → m ≡ j + k
    → get_elem? (shade i ri j rs v).0 k ≡ some r'
    → (r : Rect) × (get_elem? rs k ≡ some r) × (r' ≡ shade_one i ri m r)
unfolding shade
shade-get i ri j [] v k m e h = cc
shade-get i ri j (x ∷ rs) v zero m e h = (x, refl, ground arith)
shade-get i ri j (x ∷ rs) v (suc k) m e h = shade-get i ri (j + 1) rs _ k m (omega arith) h

-- What a round does to one place: the rectangle stays, or it is a clone of the `i`-th.
pub data Fate (rects : List Rect) (i k : ℕ) (r' : Rect) : Type 0 where
  kept : get_elem? rects k ≡ some r' → Fate rects i k r'
  shaded :
      (r ri : Rect)
      → get_elem? rects k ≡ some r
      → get_elem? rects i ≡ some ri
      → is_clone i ri k r ≡ true
      → r' ≡ record r { width = 0 }
      → Fate rects i k r'

pub round_skips :
    (i : ℕ) (rects : List Rect) (v : ℤ)
    → ((ri : Rect) → get_elem? rects i ≡ some ri → 0 < ri.width → ⊥)
    → round i rects v ≡ (rects, v)
unfolding round
round_skips i rects v h = elim (Option-cases (get_elem? rects i)) [
  | inl e ↦ rw (e, round)
  | inr (ri, e) ↦ elim (Bool-cases (ri.width == 0)) [
    | inl z ↦ rw (e, round) (rw z)
    | inr nz ↦ absurd (h ri e (ground arith))
  ]
]

pub round_shades :
    (i : ℕ) (rects : List Rect) (v : ℤ) (ri : Rect)
    → get_elem? rects i ≡ some ri
    → 0 < ri.width
    → round i rects v ≡ shade i ri 0 rects v
unfolding round
round_shades i rects v ri e h = rw (e, round) (ground arith)

round-Fate :
    (i : ℕ) (rects : List Rect) (v : ℤ) (k : ℕ) {r' : Rect}
    → get_elem? (round i rects v).0 k ≡ some r'
    → Fate rects i k r'
unfolding round shade_one
round-Fate i rects v k {r'} h = elim (Option-cases (get_elem? rects i)) [
  | inl e ↦ Fate.kept (rw (e, round) at h)
  | inr (ri, e) ↦ elim (Bool-cases (ri.width == 0)) [
    | inl z ↦ Fate.kept (ground arith)
    | inr nz ↦
        let (r, at, is) =
          shade-get i ri 0 rects v k k (omega arith)
            (rw (round_shades i rects v ri e (ground arith)) at h) in
        elim (Bool-cases (is_clone i ri k r)) [
          | inl c ↦ Fate.shaded r ri at e c (ground arith)
          | inr n ↦ Fate.kept (ground arith)
        ]
  ]
]

-- The two ways a rectangle that is still in use can be there after a round.
alive_kept :
    (i : ℕ) (rects : List Rect) (v : ℤ) (k : ℕ) (r : Rect)
    → get_elem? (round i rects v).0 k ≡ some r
    → 0 < r.width
    → get_elem? rects k ≡ some r
alive_kept i rects v k r h alive = go (round-Fate i rects v k h)
  where
    go : Fate rects i k r → get_elem? rects k ≡ some r
    go (Fate.kept e) = e
    go (Fate.shaded q ri _ _ _ z) = absurd (ground arith)

-- Up to `n`, no rectangle in use contains another one in use.
abbrev pub NoClonesBelow : ℕ → List Rect → Type 0
NoClonesBelow n rects =
    (a b : ℕ) (ra rb : Rect)
    → a < n
    → a ≢ b
    → get_elem? rects a ≡ some ra
    → get_elem? rects b ≡ some rb
    → 0 < ra.width
    → 0 < rb.width
    → contains ra rb ≡ false

-- A rectangle that the `i`-th contains is not in use behind round `i`.
shaded_by :
    (i : ℕ) (rects : List Rect) (v : ℤ) (ri : Rect) (b : ℕ) (rb : Rect)
    → get_elem? rects i ≡ some ri
    → 0 < ri.width
    → i ≢ b
    → get_elem? (round i rects v).0 b ≡ some rb
    → 0 < rb.width
    → contains ri rb ≡ false
unfolding is_clone shade_one
shaded_by i rects v ri b rb e alive ne h live =
    let before = alive_kept i rects v b rb h live in
    let after = get-shade i ri 0 rects v b b (omega arith) before in
    let same = rw (round_shades i rects v ri e alive) at h in
    elim (Bool-cases (contains ri rb)) [ inl c ↦ absurd (ground arith) | inr n ↦ n ]

round-NoClones :
    (i : ℕ) (rects : List Rect) (v : ℤ)
    → NoClonesBelow i rects
    → NoClonesBelow (suc i) (round i rects v).0
round-NoClones i rects v below a b ra rb lt ne ea eb la lb = elim (Bool-cases (a == i)) [
  | inl e ↦
      let p = (==_iff a i).0 e in
      shaded_by i rects v ra b rb (rw p at (alive_kept i rects v a ra ea la)) la (rw p at ne) eb lb
  | inr n ↦
      below a b ra rb (ground arith) ne (alive_kept i rects v a ra ea la)
        (alive_kept i rects v b rb eb lb) la lb
]

rounds-NoClones :
    (n i j : ℕ) (rects : List Rect) (v : ℤ)
    → j ≡ i + n
    → NoClonesBelow i rects
    → NoClonesBelow j (rounds n i rects v).0
unfolding rounds
rounds-NoClones zero i j rects v e below = let p : i ≡ j = omega arith in rw p at below
rounds-NoClones (suc n) i j rects v e below =
    let next = rw (← add-one i) at (round-NoClones i rects v below) in
    rounds-NoClones n (i + 1) j (round i rects v).0 (round i rects v).1 (omega arith) next

length-shade :
    (i : ℕ) (ri : Rect) (j : ℕ) (rs : List Rect) (v : ℤ) → length (shade i ri j rs v).0 ≡ length rs
unfolding shade
length-shade i ri j [] v = refl
length-shade i ri j (r ∷ rs) v = ap suc (length-shade i ri (j + 1) rs _)

length-round : (i : ℕ) (rects : List Rect) (v : ℤ) → length (round i rects v).0 ≡ length rects
unfolding round
length-round i rects v = elim (Option-cases (get_elem? rects i)) [
  | inl e ↦ rw (e, round)
  | inr (ri, e) ↦ elim (Bool-cases (ri.width == 0)) [
    | inl z ↦ rw (e, round) (rw z)
    | inr nz ↦ rw (e, round) (rw nz (length-shade i ri 0 rects v))
  ]
]

length-rounds : (n i : ℕ) (rects : List Rect) (v : ℤ) → length (rounds n i rects v).0 ≡ length rects
unfolding rounds
length-rounds zero i rects v = refl
length-rounds (suc n) i rects v =
    length-rounds n (i + 1) (round i rects v).0 (round i rects v).1 ∙ length-round i rects v

get-lt : {A : Type 0} (xs : List A) (k : ℕ) {x : A} → get_elem? xs k ≡ some x → k < length xs
get-lt [] k h = cc
get-lt (y ∷ ys) zero h = omega arith
get-lt (y ∷ ys) (suc k) h = omega (arith, get-lt ys k h)

-- Behind the loops no output that is still in use contains another one that is: clones and
-- screens inside screens are gone.
pub drop_clones-NoClones :
    (rects : List Rect) (valid : ℤ) (a b : ℕ) (ra rb : Rect)
    → a ≢ b
    → get_elem? (drop_clones rects valid).0 a ≡ some ra
    → get_elem? (drop_clones rects valid).0 b ≡ some rb
    → 0 < ra.width
    → 0 < rb.width
    → contains ra rb ≡ false
unfolding drop_clones
drop_clones-NoClones rects valid a b ra rb ne ea eb =
    let n = length rects in
    rounds-NoClones n 0 n rects valid (omega arith) (λ a b ra rb h. absurd (omega arith)) a b ra rb
      (omega (arith, get-lt (rounds n 0 rects valid).0 a ea, length-rounds n 0 rects valid)) ne ea
      eb
