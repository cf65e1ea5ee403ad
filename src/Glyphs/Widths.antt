-- ===== src/Glyphs/Widths.antt =====
-- The table of widths (`xftCharWidth` of bar.h) against asking Xft each time.
use photonbar.Common.{
  ℕ, ◌+◌, ◌%◌, ◌<◌, ◌≡◌, ◌≢◌, ◌∙◌, refl, sym, ap, arith, true, Option, none, some, List, [], ◌∷◌,
  ◌==◌, Bool-cases, Option-cases, inl, inr, ◌⊎◌, ==_refl, ==_iff,
}
use mathlib.Core.Option.{some_inj}
use photonbar.Common.Int.{ℤ}
use photonbar.Glyphs.{
  Extents, advance, to_char, Cache, stops, write, xft_char_width_slot, xft_char_width,
}
use photonbar.Glyphs.Slots.{
  xft_char_width_slot-ends, find_slot-stops, find_slot-write, find_slot-stored,
}

-- The character is found in the table.
abbrev pub Knows : ℕ → Cache → ℕ → Type 0
Knows size c ch = (s : ℕ) × (xft_char_width_slot size c.chars ch ≡ some s) × (c.chars s ≡ ch)

module _ (ask : ℕ → Extents) where
  -- The width that Xft gives for a character, as `xftWidth` can hold it.
  abbrev pub fresh : ℕ → ℤ
  fresh ch = to_char (advance (ask ch))

  -- Every width in the table is the one that Xft gives for its character.
  abbrev pub IsSound : Cache → Type 0
  IsSound c = (s : ℕ) → c.chars s ≢ 0 → c.widths s ≡ fresh (c.chars s)

  stored : Cache → ℕ → ℕ → Cache
  stored c slot ch = record {
    chars = write c.chars slot ch;
    widths = write c.widths slot (fresh ch);
    asked = c.asked + 1;
  }

  stored-IsSound : (c : Cache) (slot ch : ℕ) → IsSound c → IsSound (stored c slot ch)
  unfolding stored
  stored-IsSound c slot ch sound s = elim (Bool-cases (s == slot)) [
    | inl here ↦ rw here (λ _. refl)
    | inr other ↦ rw other (sound s)
  ]

module _ (size : ℕ) (ask : ℕ → Extents) where
  -- The two ways in which a lookup ends, at the slot that it finds.
  lookup_new :
      (c : Cache) (ch : ℕ) {s : ℕ}
      → xft_char_width_slot size c.chars ch ≡ some s
      → c.chars s ≡ 0
      → xft_char_width size ask ch c ≡ some (stored ask c s ch, fresh ask ch)
  unfolding xft_char_width stored
  lookup_new c ch found empty = ground (arith, found, empty)

  lookup_known :
      (c : Cache) (ch : ℕ)
      → ch ≢ 0
      → IsSound ask c
      → Knows size c ch
      → xft_char_width size ask ch c ≡ some (c, fresh ask ch)
  unfolding xft_char_width
  lookup_known c ch real sound (s, found, here) =
      ground (arith, real, found, here, sound s, ap (fresh ask) here)

  -- In a table whose widths are Xft's, and that has an empty slot or the character, the lookup
  -- ends, gives the width that Xft gives, and leaves such a table.
  pub xft_char_width-agrees :
      (c : Cache) (ch k : ℕ)
      → IsSound ask c
      → k < size
      → stops c.chars ch k ≡ true
      → (c' : Cache) × (xft_char_width size ask ch c ≡ some (c', fresh ask ch)) × IsSound ask c'
  unfolding xft_char_width
  xft_char_width-agrees c ch k sound low t =
      let (s, found, below, stop) = xft_char_width_slot-ends size c.chars ch k low t in
      elim (Bool-cases (c.chars s == 0)) [
        | inl empty ↦ (
          stored ask c s ch,
          lookup_new c ch found ((==_iff _ _).0 empty),
          stored-IsSound ask c s ch sound,
        )
        | inr full ↦ (
          c,
          lookup_known c ch (ground (arith, full, stop)) sound
              (s, found, ground (arith, full, stop)),
          sound,
        )
      ]

  -- Looking characters up, one after another.
  abbrev pub lookups : List ℕ → Cache → Option Cache
  lookups [] c = some c
  lookups (ch ∷ chs) c = elim (xft_char_width size ask ch c) [
    | none ↦ none
    | some (c', w) ↦ lookups chs c'
  ]

  option_fst : Option (Cache × ℤ) → Cache → Cache
  option_fst none c = c
  option_fst (some (c', w)) c = c'

  lookup_cases :
      (c : Cache) (ch : ℕ) {c' : Cache} {w : ℤ}
      → xft_char_width size ask ch c ≡ some (c', w)
      → IsSound ask c
      → ((c' ≡ c) × Knows size c ch)
        ⊎ ((s : ℕ) × (xft_char_width_slot size c.chars ch ≡ some s)
            × (c.chars s ≡ 0)
            × (c' ≡ stored ask c s ch))
  unfolding xft_char_width xft_char_width_slot stored option_fst
  lookup_cases c ch h sound = elim (Option-cases (xft_char_width_slot size c.chars ch)) [
    | inl none_left ↦ absurd (ground (arith, h, none_left))
    | inr (s, found) ↦ elim (Bool-cases (c.chars s == 0)) [
      | inl empty ↦
          let e : c.chars s ≡ 0 = (==_iff _ _).0 empty in
          inr (s, found, e, ap (λ r. option_fst r c) (sym h ∙ lookup_new c ch found e))
      | inr full ↦
          let stop = find_slot-stops size size c.chars ch (ch % size) {s = s} found in
          inl (ground (arith, h, found, full), (s, found, ground (arith, full, stop)))
    ]
  ]

  stored-Knows :
      (c : Cache) (ch other e : ℕ)
      → ch ≢ 0
      → c.chars e ≡ 0
      → Knows size c ch
      → Knows size (stored ask c e other) ch
  unfolding xft_char_width_slot stored
  stored-Knows c ch other e real empty (s, found, here) = (
    s,
    find_slot-write size size c.chars ch (ch % size) e other empty real found here,
    ground (arith, real, empty, here, ap c.chars {x = s} {y = e}),
  )

  -- After its first lookup a character is known.
  lookup-Knows :
      (c : Cache) (ch : ℕ) {c' : Cache} {w : ℤ}
      → xft_char_width size ask ch c ≡ some (c', w)
      → IsSound ask c
      → IsSound ask c' × Knows size c' ch
  unfolding xft_char_width_slot stored
  lookup-Knows c ch {c'} h sound = elim (lookup_cases c ch h sound) [
    | inl (same, knows) ↦ rw same (sound, knows)
    | inr (e, found, empty, changed) ↦ rw changed (
      stored-IsSound ask c e ch sound,
      (e, find_slot-stored size size c.chars ch (ch % size) found empty, rw (==_refl e) refl),
    )
  ]

  -- Another lookup keeps a character that the table knows, and the table sound.
  lookup_keeps :
      (c : Cache) (ch other : ℕ) {c' : Cache} {w : ℤ}
      → ch ≢ 0
      → IsSound ask c
      → Knows size c ch
      → xft_char_width size ask other c ≡ some (c', w)
      → IsSound ask c' × Knows size c' ch
  lookup_keeps c ch other real sound knows h = elim (lookup_cases c other h sound) [
    | inl (same, _) ↦ rw same (sound, knows)
    | inr (e, found, empty, changed) ↦
        rw changed (stored-IsSound ask c e other sound, stored-Knows c ch other e real empty knows)
  ]

  lookups_keep :
      (c c' : Cache) (ch : ℕ) (between : List ℕ)
      → ch ≢ 0
      → IsSound ask c
      → Knows size c ch
      → lookups between c ≡ some c'
      → IsSound ask c' × Knows size c' ch
  lookups_keep c c' ch [] real sound knows h = rw (← some_inj.0 h) (sound, knows)
  lookups_keep c c' ch (other ∷ rest) real sound knows h =
      elim (Option-cases (xft_char_width size ask other c)) [
        | inl stuck ↦ absurd (ground (arith, h, stuck))
        | inr ((d, w), found) ↦
            let kept = lookup_keeps c ch other real sound knows found in
            lookups_keep d c' ch rest real kept.0 kept.1 (ground (arith, h, found))
      ]

  -- A character other than 0 that has been looked up in a table whose widths are Xft's is not asked
  -- for again: after any lookups in between that end, the width that Xft gives is given and the
  -- table stays as it is.
  xft_char_width-once :
      (c c' c'' : Cache) (ch : ℕ) (w : ℤ) (between : List ℕ)
      → ch ≢ 0
      → IsSound ask c
      → xft_char_width size ask ch c ≡ some (c', w)
      → lookups between c' ≡ some c''
      → xft_char_width size ask ch c'' ≡ some (c'', fresh ask ch)
  xft_char_width-once c c' c'' ch w between real sound first later =
      let start = lookup-Knows c ch first sound in
      let end = lookups_keep c' c'' ch between real start.0 start.1 later in
      lookup_known c'' ch real end.0 end.1
