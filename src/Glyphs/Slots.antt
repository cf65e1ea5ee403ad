-- ===== src/Glyphs/Slots.antt =====
-- The probing of `xftCharWidthSlot` (bar.h): when it ends, and where.
use photonbar.Common.{
  ℕ, zero, suc, ◌+◌, ◌-◌, ◌%◌, ◌<◌, ◌≡◌, ◌≢◌, ◌∙◌, refl, ap, arith, true, false, none, some, ◌==◌,
  Bool-cases, inl, inr, ==_iff, leb,
}
use native.Mathlib.Nat.{mod-eq_of_lt, mod_self, mod-lt}
use photonbar.Glyphs.{stops, find_slot, xft_char_width_slot, write}

module _ (size : ℕ) where
  next_slot : (slot : ℕ) → suc slot < size → (slot + 1) % size ≡ suc slot
  next_slot slot h = mod-eq_of_lt (omega arith) ∙ omega arith

  last_slot : (slot : ℕ) → suc slot ≡ size → (slot + 1) % size ≡ 0
  last_slot slot h = ap (λ (n : ℕ). n % size) (omega (arith, h)) ∙ mod_self size

  abbrev Ends : ℕ → (ℕ → ℕ) → ℕ → ℕ → Type 0
  Ends fuel chars ch slot =
      (s : ℕ) × (find_slot size fuel chars ch slot ≡ some s)
      × (s < size)
      × (stops chars ch s ≡ true)

  -- One round that goes on, then what holds of the rest.
  find_slot_step :
      (fuel : ℕ) (chars : ℕ → ℕ) (ch slot next : ℕ)
      → (slot + 1) % size ≡ next
      → slot < size
      → Ends fuel chars ch next
      → Ends (suc fuel) chars ch slot
  unfolding find_slot
  find_slot_step fuel chars ch slot next e h (s, found, below, stop) =
      elim (Bool-cases (stops chars ch slot)) [
        | inl here ↦ (slot, rw here refl, h, here)
        | inr on ↦ (s, rw (on, e) found, below, stop)
      ]

  -- The slot is `d` steps ahead, below the end of the table.
  find_slot_ahead :
      (d fuel : ℕ) (chars : ℕ → ℕ) (ch slot k : ℕ)
      → d < fuel
      → slot + d ≡ k
      → k < size
      → stops chars ch k ≡ true
      → Ends fuel chars ch slot
  unfolding find_slot
  find_slot_ahead d zero chars ch slot k h e below t = absurd (omega (arith, h))
  find_slot_ahead zero (suc fuel) chars ch slot k h e below t =
      let same : k ≡ slot = omega (arith, e) in
      (slot, rw (rw same at t) refl, omega arith, rw same at t)
  find_slot_ahead (suc d) (suc fuel) chars ch slot k h e below t =
      find_slot_step fuel chars ch slot (suc slot) (next_slot slot (omega arith)) (omega arith)
        (find_slot_ahead d fuel chars ch (suc slot) k (omega arith) (omega arith) below t)

  -- The slot is `d` steps ahead, behind the end of the table.
  find_slot_around :
      (d fuel : ℕ) (chars : ℕ → ℕ) (ch slot k : ℕ)
      → d < fuel
      → slot + d ≡ size + k
      → slot < size
      → k < size
      → stops chars ch k ≡ true
      → Ends fuel chars ch slot
  find_slot_around d zero chars ch slot k h e low below t = absurd (omega (arith, h))
  find_slot_around zero (suc fuel) chars ch slot k h e low below t = absurd (omega (arith, e))
  find_slot_around (suc d) (suc fuel) chars ch slot k h e low below t =
      elim (Bool-cases (suc slot == size)) [
        | inl end ↦
            let last : suc slot ≡ size = (==_iff _ _).0 end in
            find_slot_step fuel chars ch slot 0 (last_slot slot last) low
              (find_slot_ahead d fuel chars ch 0 k (omega arith) (omega arith) below t)
        | inr on ↦
            let more : suc slot < size = ground arith in
            find_slot_step fuel chars ch slot (suc slot) (next_slot slot more) low (
              find_slot_around d fuel chars ch (suc slot) k (omega arith) (omega arith) more below
                t)
      ]

  -- While a slot of the table is empty or holds the character, the loop ends within one pass over
  -- the table, at a slot of the table that is empty or holds the character.
  pub xft_char_width_slot-ends :
      (chars : ℕ → ℕ) (ch k : ℕ)
      → k < size
      → stops chars ch k ≡ true
      → (s : ℕ) × (xft_char_width_slot size chars ch ≡ some s)
        × (s < size)
        × (stops chars ch s ≡ true)
  unfolding xft_char_width_slot
  xft_char_width_slot-ends chars ch k h t =
      let home = ch % size in
      let low : home < size = mod-lt ch (omega arith) in
      elim (Bool-cases (leb home k)) [
        | inl up ↦ find_slot_ahead (k - home) size chars ch home k (omega arith) (ground arith) h t
        | inr around ↦
            find_slot_around (size + k - home) size chars ch home k (ground arith) (omega arith) low
              h t
      ]

  -- In a table full of other characters it never ends.
  find_slot_full :
      (fuel : ℕ) (chars : ℕ → ℕ) (ch slot : ℕ)
      → ((s : ℕ) → stops chars ch s ≡ false)
      → find_slot size fuel chars ch slot ≡ none
  unfolding find_slot
  find_slot_full zero chars ch slot full = refl
  find_slot_full (suc fuel) chars ch slot full =
      rw (full slot) (find_slot_full fuel chars ch ((slot + 1) % size) full)

  pub find_slot-stops :
      (fuel : ℕ) (chars : ℕ → ℕ) (ch slot : ℕ) {s : ℕ}
      → find_slot size fuel chars ch slot ≡ some s
      → stops chars ch s ≡ true
  unfolding find_slot
  find_slot-stops zero chars ch slot h = ground (arith, h)
  find_slot-stops (suc fuel) chars ch slot {s} h =
      ground (arith, h, find_slot-stops fuel chars ch ((slot + 1) % size) {s = s})

  -- Filling an empty slot does not move a character that is in the table.
  pub find_slot-write :
      (fuel : ℕ) (chars : ℕ → ℕ) (ch slot e other : ℕ) {s : ℕ}
      → chars e ≡ 0
      → ch ≢ 0
      → find_slot size fuel chars ch slot ≡ some s
      → chars s ≡ ch
      → find_slot size fuel (write chars e other) ch slot ≡ some s
  unfolding find_slot
  find_slot-write zero chars ch slot e other empty real h here = ground (arith, h)
  find_slot-write (suc fuel) chars ch slot e other {s} empty real h here = ground (
    arith,
    empty,
    real,
    h,
    here,
    ap chars {x = slot} {y = s},
    find_slot-write fuel chars ch ((slot + 1) % size) e other {s = s} empty real,
  )

  -- A character put into the slot that was found for it is found there.
  pub find_slot-stored :
      (fuel : ℕ) (chars : ℕ → ℕ) (ch slot : ℕ) {s : ℕ}
      → find_slot size fuel chars ch slot ≡ some s
      → chars s ≡ 0
      → find_slot size fuel (write chars s ch) ch slot ≡ some s
  unfolding find_slot
  find_slot-stored zero chars ch slot h empty = ground (arith, h)
  find_slot-stored (suc fuel) chars ch slot {s} h empty = ground (
    arith,
    h,
    empty,
    ap chars {x = slot} {y = s},
    find_slot-stored fuel chars ch ((slot + 1) % size) {s = s},
  )
