-- ===== src/Monitors/Cover.antt =====
-- The loops over the outputs in `getRandrMonitors` (bar.h) lose no part of the screen, and keep
-- the count of usable outputs.
use photonbar.Common.{
  ℕ, zero, suc, ◌+◌, ◌<◌, ◌≡◌, refl, ◌∙◌, true, some, Option-cases, List, [], ◌∷◌, length,
  get_elem?, ltb, if◌then◌else◌, arith, inl, inr, Bool-cases,
}
use photonbar.Common.Int.{ℤ, pos, ◌+ℤ◌, ◌-ℤ◌, ◌≤ℤ◌, int_laws}
use photonbar.Monitors.{
  Rect, contains, is_clone, shade_one, shade, round, rounds, drop_clones, collect,
}
use photonbar.Monitors.Clones.{get-shade, round_skips, round_shades}

contains_refl : (r : Rect) → contains r r ≡ true
unfolding contains
contains_refl r = ground arith

record Inside (a b : Rect) : Type 0 where
  left : a.x ≤ℤ b.x
  right : b.x +ℤ pos b.width ≤ℤ a.x +ℤ pos a.width
  top : a.y ≤ℤ b.y
  bottom : b.y +ℤ pos b.height ≤ℤ a.y +ℤ pos a.height

contains-Inside : (a b : Rect) → contains a b ≡ true → Inside a b
unfolding contains
contains-Inside a b h = ground arith

Inside-contains : (a b : Rect) → Inside a b → contains a b ≡ true
unfolding contains
Inside-contains a b h = ground arith

Inside-trans : (a b c : Rect) → Inside a b → Inside b c → Inside a c
Inside-trans a b c h k = omega arith

contains_trans : (a b c : Rect) → contains a b ≡ true → contains b c ≡ true → contains a c ≡ true
contains_trans a b c h k =
    Inside-contains a c (Inside-trans a b c (contains-Inside a b h) (contains-Inside b c k))

-- Some rectangle in use contains `r`.
pub record Covered (rects : List Rect) (r : Rect) : Type 0 where
  pub at : ℕ
  pub by : Rect
  pub found : get_elem? rects at ≡ some by
  pub alive : 0 < by.width
  pub covers : contains by r ≡ true

shade-Covered :
    (i : ℕ) (rects : List Rect) (v : ℤ) (r ri : Rect)
    → get_elem? rects i ≡ some ri
    → 0 < ri.width
    → Covered rects r
    → Covered (shade i ri 0 rects v).0 r
unfolding shade_one is_clone
shade-Covered i rects v r ri e live c = elim (Bool-cases (is_clone i ri c.at c.by)) [
  | inl clone ↦ record {
    at = i;
    by = ri;
    found = get-shade i ri 0 rects v i i (omega arith) e ∙ ground arith;
    alive = live;
    covers = contains_trans ri c.by r (ground arith) c.covers;
  }
  | inr other ↦ record {
    at = c.at;
    by = c.by;
    found = get-shade i ri 0 rects v c.at c.at (omega arith) c.found ∙ ground arith;
    alive = c.alive;
    covers = c.covers;
  }
]

round-Covered :
    (i : ℕ) (rects : List Rect) (v : ℤ) (r : Rect) → Covered rects r → Covered (round i rects v).0 r
round-Covered i rects v r c = elim (Option-cases (get_elem? rects i)) [
  | inl e ↦ rw (round_skips i rects v (λ ri f live. cc)) c
  | inr (ri, e) ↦ elim (Bool-cases (ltb 0 ri.width)) [
    | inl live ↦
        rw (round_shades i rects v ri e (ground arith))
          (shade-Covered i rects v r ri e (ground arith) c)
    | inr dead ↦ rw (round_skips i rects v (λ rj f live. ground arith)) c
  ]
]

rounds-Covered :
    (n i : ℕ) (rects : List Rect) (v : ℤ) (r : Rect)
    → Covered rects r
    → Covered (rounds n i rects v).0 r
unfolding rounds
rounds-Covered zero i rects v r c = c
rounds-Covered (suc n) i rects v r c =
    rounds-Covered n (i + 1) (round i rects v).0 (round i rects v).1 r (round-Covered i rects v r c)

-- Every output that was in use lies inside one that still is.
pub drop_clones-Covered :
    (rects : List Rect) (valid : ℤ) (k : ℕ) (r : Rect)
    → get_elem? rects k ≡ some r
    → 0 < r.width
    → Covered (drop_clones rects valid).0 r
unfolding drop_clones
drop_clones-Covered rects valid k r e live =
    rounds-Covered (length rects) 0 rects valid r
      (record { at = k; by = r; found = e; alive = live; covers = contains_refl r })

-- How many rectangles are in use.
abbrev pub in_use : List Rect → ℕ
in_use [] = 0
in_use (r ∷ rs) = (if ltb 0 r.width then 1 else 0) + in_use rs

clone_alive :
    (i : ℕ) (ri : Rect) (j : ℕ) (r : Rect) → is_clone i ri j r ≡ true → ltb 0 r.width ≡ true
unfolding is_clone
clone_alive i ri j r c = ground arith

shade-in_use :
    (i : ℕ) (ri : Rect) (j : ℕ) (rs : List Rect) (v : ℤ)
    → (shade i ri j rs v).1 +ℤ pos (in_use rs) ≡ v +ℤ pos (in_use (shade i ri j rs v).0)
unfolding shade
shade-in_use i ri j [] v = refl
shade-in_use i ri j (r ∷ rs) v = elim (Bool-cases (is_clone i ri j r)) [
  | inl c ↦
      let ih = shade-in_use i ri (j + 1) rs (v -ℤ pos 1) in
      rw c (rw (clone_alive i ri j r c) (omega int_laws))
  | inr n ↦ let ih = shade-in_use i ri (j + 1) rs v in rw n (omega int_laws)
]

round-in_use :
    (i : ℕ) (rects : List Rect) (v : ℤ)
    → (round i rects v).1 +ℤ pos (in_use rects) ≡ v +ℤ pos (in_use (round i rects v).0)
round-in_use i rects v = elim (Option-cases (get_elem? rects i)) [
  | inl e ↦ rw (round_skips i rects v (λ ri f live. cc))
  | inr (ri, e) ↦ elim (Bool-cases (ltb 0 ri.width)) [
    | inl live ↦ rw (round_shades i rects v ri e (ground arith)) (shade-in_use i ri 0 rects v)
    | inr dead ↦ rw (round_skips i rects v (λ rj f live. ground arith))
  ]
]

rounds-in_use :
    (n i : ℕ) (rects : List Rect) (v : ℤ)
    → (rounds n i rects v).1 +ℤ pos (in_use rects) ≡ v +ℤ pos (in_use (rounds n i rects v).0)
unfolding rounds
rounds-in_use zero i rects v = refl
rounds-in_use (suc n) i rects v =
    let one = round-in_use i rects v in
    let rest = rounds-in_use n (i + 1) (round i rects v).0 (round i rects v).1 in omega int_laws

collect-in_use : (n : ℕ) (rects : List Rect) → n ≡ in_use rects → length (collect n rects) ≡ n
unfolding collect
collect-in_use zero rects e = refl
collect-in_use (suc n) [] e = absurd (omega arith)
collect-in_use (suc n) (r ∷ rs) e = ground (arith, collect-in_use (suc n) rs, collect-in_use n rs)

-- If `valid` counts the outputs in use before the loops, it counts them behind the loops too, and
-- the array of that size is filled completely.
pub drop_clones-count :
    (rects : List Rect)
    → let out = drop_clones rects (pos (in_use rects)) in
      (out.1 ≡ pos (in_use out.0)) × (length (collect (in_use out.0) out.0) ≡ in_use out.0)
unfolding drop_clones
drop_clones-count rects =
    let all = rounds-in_use (length rects) 0 rects (pos (in_use rects)) in
    (omega int_laws, collect-in_use _ _ refl)
