-- ===== src/Monitors/Unread.antt =====
-- `getRandrMonitors` (bar.h) on arrays that are written in part: nothing it gives on depends on
-- what stood there before.
use photonbar.Common.{
  ℕ, zero, suc, ◌+◌, ◌-◌, ◌<◌, ◌≡◌, refl, sym, ap, ◌∙◌, ◌⊎◌, false, Option, none, some, List, [],
  ◌∷◌, length, get_elem?, ltb, ◌==◌, if◌then◌else◌, arith, inl, inr, Bool-cases, Option-cases,
  append-nil, lt→ltb,
}
use photonbar.Common.Int.{ℤ, pos, ◌+ℤ◌, ◌-ℤ◌, int_laws}
use photonbar.Monitors.{Rect, is_clone, shade_one, shade, round, rounds, drop_clones, collect}
use photonbar.Monitors.Cover.{in_use, drop_clones-count}
use photonbar.Monitors.Outputs.{
  Randr, is_off, crtc_of, read_outputs, fill_array, usable, from_outputs, randr_rects,
}

-- The same but for what an unused rectangle holds besides its width.
pub record IsSame (a b : Rect) : Type 0 where
  pub width : a.width ≡ b.width
  pub used : 0 < a.width → a ≡ b

abbrev pub Alike : List Rect → List Rect → Type 0
Alike [] [] = Unit {0}
Alike (a ∷ as') (b ∷ bs) = IsSame a b × Alike as' bs
Alike _ _ = ⊥

IsSame-unused : (a b : Rect) → a.width ≡ 0 → b.width ≡ 0 → IsSame a b
IsSame-unused a b p q = record { width = p ∙ sym q; used = λ h. absurd (omega arith) }

is_clone_unused :
    (i : ℕ) (r : Rect) (j : ℕ) (a : Rect) → ltb 0 a.width ≡ false → is_clone i r j a ≡ false
unfolding is_clone
is_clone_unused i r j a dead =
    rw dead (elim (Bool-cases (i == j)) [ inl e ↦ rw e refl | inr n ↦ rw n refl ])

is_clone-IsSame :
    (i : ℕ) (r : Rect) (j : ℕ) (a b : Rect) → IsSame a b → is_clone i r j a ≡ is_clone i r j b
is_clone-IsSame i r j a b s = elim (Bool-cases (ltb 0 a.width)) [
  | inl live ↦ ap (λ q. is_clone i r j q) (s.used (ground arith))
  | inr dead ↦
      is_clone_unused i r j a dead ∙ sym (is_clone_unused i r j b (sym (ap (ltb 0) s.width) ∙ dead))
]

shade_one-IsSame :
    (i : ℕ) (r : Rect) (j : ℕ) (a b : Rect)
    → IsSame a b
    → IsSame (shade_one i r j a) (shade_one i r j b)
unfolding shade_one
shade_one-IsSame i r j a b s = elim (Bool-cases (is_clone i r j a)) [
  | inl c ↦ rw (← is_clone-IsSame i r j a b s) (rw c (IsSame-unused _ _ refl refl))
  | inr n ↦ rw (← is_clone-IsSame i r j a b s) (rw n s)
]

shade-Alike :
    (i : ℕ) (r : Rect) (j : ℕ) (as' bs : List Rect) (v w : ℤ)
    → Alike as' bs
    → v ≡ w
    → Alike (shade i r j as' v).0 (shade i r j bs w).0
      × ((shade i r j as' v).1 ≡ (shade i r j bs w).1)
unfolding shade
shade-Alike i r j [] [] v w h e = (tt, e)
shade-Alike i r j [] (b ∷ bs) v w h e = absurd h
shade-Alike i r j (a ∷ as') [] v w h e = absurd h
shade-Alike i r j (a ∷ as') (b ∷ bs) v w h e =
    let same = is_clone-IsSame i r j a b h.0 in
    let ih = shade-Alike i r (j + 1) as' bs _ _ h.1 (λ k. if same k then e k -ℤ pos 1 else e k) in
    ((unfold shade_one in shade_one-IsSame i r j a b h.0, ih.0), ih.1)

-- At each index there is nothing in both lists, or the same.
Alike-get :
    (i : ℕ) (as' bs : List Rect)
    → Alike as' bs
    → ((get_elem? as' i ≡ none) × (get_elem? bs i ≡ none))
      ⊎ ((a : Rect) × (b : Rect) × (get_elem? as' i ≡ some a)
          × (get_elem? bs i ≡ some b)
          × IsSame a b)
Alike-get i [] [] h = inl (refl, refl)
Alike-get i [] (b ∷ bs) h = absurd h
Alike-get i (a ∷ as') [] h = absurd h
Alike-get zero (a ∷ as') (b ∷ bs) h = inr (a, b, refl, refl, h.0)
Alike-get (suc i) (a ∷ as') (b ∷ bs) h = Alike-get i as' bs h.1

round-Alike :
    (i : ℕ) (as' bs : List Rect) (v w : ℤ)
    → Alike as' bs
    → v ≡ w
    → Alike (round i as' v).0 (round i bs w).0 × ((round i as' v).1 ≡ (round i bs w).1)
unfolding round
round-Alike i as' bs v w h e = elim (Alike-get i as' bs h) [
  | inl (p, q) ↦ rw (p, q, round) (h, e)
  | inr (a, b, p, q, s) ↦ elim (Bool-cases (a.width == 0)) [
    | inl z ↦ rw (p, q, round) (rw (z, sym (ap (λ n. n == 0) s.width) ∙ z) (h, e))
    | inr used ↦
        let same = s.used (ground arith) in
        rw (p, q, round)
          (rw (used, sym (ap (λ n. n == 0) s.width) ∙ used)
            (rw (← same) (shade-Alike i a 0 as' bs v w h e)))
  ]
]

rounds-Alike :
    (n i : ℕ) (as' bs : List Rect) (v w : ℤ)
    → Alike as' bs
    → v ≡ w
    → Alike (rounds n i as' v).0 (rounds n i bs w).0 × ((rounds n i as' v).1 ≡ (rounds n i bs w).1)
unfolding rounds
rounds-Alike zero i as' bs v w h e = (h, e)
rounds-Alike (suc n) i as' bs v w h e =
    let one = round-Alike i as' bs v w h e in rounds-Alike n (i + 1) _ _ _ _ one.0 one.1

Alike-length : (as' bs : List Rect) → Alike as' bs → length as' ≡ length bs
Alike-length [] [] h = refl
Alike-length [] (b ∷ bs) h = absurd h
Alike-length (a ∷ as') [] h = absurd h
Alike-length (a ∷ as') (b ∷ bs) h = ap suc (Alike-length as' bs h.1)

drop_clones-Alike :
    (as' bs : List Rect) (v : ℤ)
    → Alike as' bs
    → Alike (drop_clones as' v).0 (drop_clones bs v).0
      × ((drop_clones as' v).1 ≡ (drop_clones bs v).1)
unfolding drop_clones
drop_clones-Alike as' bs v h =
    rw (← Alike-length as' bs h) (rounds-Alike (length as') 0 as' bs v v h refl)

-- What is collected is in use, and so the same.
collect-Alike : (n : ℕ) (as' bs : List Rect) → Alike as' bs → collect n as' ≡ collect n bs
unfolding collect
collect-Alike zero as' bs h = refl
collect-Alike (suc n) [] [] h = refl
collect-Alike (suc n) [] (b ∷ bs) h = absurd h
collect-Alike (suc n) (a ∷ as') [] h = absurd h
collect-Alike (suc n) (a ∷ as') (b ∷ bs) h = elim (Bool-cases (a.width == 0)) [
  | inl z ↦ rw (z, sym (ap (λ k. k == 0) h.0.width) ∙ z) (collect-Alike (suc n) as' bs h.1)
  | inr used ↦
      rw
        (
          used,
          sym (ap (λ k. k == 0) h.0.width) ∙ used,
          h.0.used (ground arith),
          collect-Alike n as' bs h.1,
        )
        refl
]

fill_array_full :
    (old : ℕ → Rect) (n : ℕ) (rects : List Rect)
    → length (collect n rects) ≡ n
    → fill_array old n rects ≡ collect n rects
unfolding fill_array
fill_array_full old n rects full =
    let none_left : n - length (collect n rects) ≡ 0 = omega arith in
    rw none_left (append-nil (collect n rects))

usable-Alike :
    (old old' : ℕ → Rect) (as' bs : List Rect) (v : ℤ)
    → Alike as' bs
    → v ≡ pos (in_use as')
    → usable old (as', v) ≡ usable old' (bs, v)
unfolding usable
usable-Alike old old' as' bs v h e =
    let same = drop_clones-Alike as' bs v h in
    let (counts, full) = drop_clones-count as' in
    let out = drop_clones as' v in
    let n = in_use out.0 in
    let valid : out.1 ≡ pos n = rw e counts in
    let filled : length (collect n out.0) ≡ n = rw e full in
    let also = sym (collect-Alike n out.0 (drop_clones bs v).0 same.0) in
    rw
      (
        ← same.1,
        valid,
        fill_array_full old n out.0 filled,
        fill_array_full old' n (drop_clones bs v).0 (ap length also ∙ filled),
        also,
      )
      refl

module _ (x : Randr) (wide : (c : ℕ) (r : Rect) → x.crtc_info c ≡ some r → 0 < r.width)
    (old old' : ℕ → Rect) where
  -- Both readings return early, or both find lists that are alike, with a count of those in use.
  abbrev BothRead : Option (List Rect × ℤ) → Option (List Rect × ℤ) → ℤ → Type 0
  BothRead p q v =
      ((p ≡ none) × (q ≡ none))
      ⊎ ((as' : List Rect) × (bs : List Rect) × (w : ℤ) × (p ≡ some (as', w))
          × (q ≡ some (bs, w))
          × Alike as' bs
          × (w ≡ v +ℤ pos (in_use as')))

  read_outputs-BothRead :
      (i : ℕ) (os : List ℕ) (v : ℤ)
      → BothRead (read_outputs x old i os v) (read_outputs x old' i os v) v
  unfolding read_outputs
  read_outputs-BothRead i [] v = inr ([], [], v, refl, refl, tt, omega int_laws)
  read_outputs-BothRead i (o ∷ os) v = elim (Bool-cases (is_off (x.output_info o))) [
    | inl off ↦ elim (read_outputs-BothRead (i + 1) os v) [
      | inl (p, q) ↦ inl (rw (off, p), rw (off, q))
      | inr (as', bs, w, p, q, h, e) ↦ inr (
        record (old i) { width = 0 } ∷ as',
        record (old' i) { width = 0 } ∷ bs,
        w,
        rw (off, p),
        rw (off, q),
        (IsSame-unused _ _ refl refl, h),
        omega (int_laws, e),
      )
    ]
    | inr on ↦ elim (Option-cases (x.crtc_info (crtc_of (x.output_info o)))) [
      | inl silent ↦ inl (rw (on, silent), rw (on, silent))
      | inr (r, lit) ↦ elim (read_outputs-BothRead (i + 1) os (v +ℤ pos 1)) [
        | inl (p, q) ↦ inl (rw (on, lit, p), rw (on, lit, q))
        | inr (as', bs, w, p, q, h, e) ↦ inr (
          r ∷ as',
          r ∷ bs,
          w,
          rw (on, lit, p),
          rw (on, lit, q),
          (record { width = refl; used = λ _. refl }, h),
          rw (lt→ltb 0 r.width (wide (crtc_of (x.output_info o)) r lit)) (omega (int_laws, e)),
        )
      ]
    ]
  ]

  from_outputs-unread :
      (more more' : ℕ → Rect) (outputs : Option (List ℕ))
      → from_outputs x old more outputs ≡ from_outputs x old' more' outputs
  unfolding from_outputs
  from_outputs-unread more more' none = refl
  from_outputs-unread more more' (some []) = refl
  from_outputs-unread more more' (some (o ∷ os)) = elim (read_outputs-BothRead 0 (o ∷ os) (pos 0)) [
    | inl (p, q) ↦ rw (p, q, from_outputs) refl
    | inr (as', bs, w, p, q, h, n) ↦
        rw (p, q, from_outputs) (usable-Alike more more' as' bs w h (n ∙ omega int_laws))
  ]

  -- Where every crtc that answers has a width, what goes to `monitorCreateChain`, and whether it is
  -- called, does not depend on what the two arrays held before.
  pub randr_rects-unread :
      (more more' : ℕ → Rect) → randr_rects x old more ≡ randr_rects x old' more'
  unfolding randr_rects
  randr_rects-unread more more' = from_outputs-unread more more' x.outputs
