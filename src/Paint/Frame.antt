-- ===== src/Paint/Frame.antt =====
-- bar.h: the separator that `initSeparator` prepares and the width that `renderAllElements` counts
-- for it, and one frame as `parseModules` and `feed` draw it.
use photonbar.Common.{
  ℕ, zero, suc, ◌+◌, ◌-◌, ◌*◌, ◌≡◌, ◌∙◌, sym, ap, refl, Bool, true, false, Option, none, some, List,
  [], ◌∷◌, ◌++◌, ◌==◌, if◌then◌else◌, Bytes, drop, map, length, All, arith, Option-cases, inl, inr,
}
use photonbar.Common.Int.{ℤ, pos, ◌+ℤ◌, ◌-ℤ◌}
use photonbar.Utf8.{decode_utf8_char, encode_utf8}
use photonbar.Layout.{Sides, panels_width}
use photonbar.Layout.Order.{elements_of}
use photonbar.Fonts.{Font, Fonts, Chosen, select_drawable_font, get_utf8_char_width}
use photonbar.Paint.{Painter, Setup, Glyph, Op, fill_rect}
use photonbar.Paint.Draw.{render_panels}
use photonbar.Paint.Synced.{IsSynced}
use photonbar.Paint.Element.{IsFont}
use photonbar.Paint.Sides.{apply_all, apply_all-IsSynced, render_panels-IsSynced}

-- " ▏", with its terminator.
abbrev pub sep_string : Bytes
sep_string = 32 ∷ (encode_utf8 0x258f ++ (0 ∷ []))

-- One character of the separator; its font is `none` where no font has it.
pub record Cell : Type 0 where
  pub ucs : ℕ
  pub font : Option Font
  pub width : ℤ

abbrev pub font_of : Option Chosen → Option Font
font_of none = none
font_of (some k) = some k.font

module _ (xft_width : ℕ → ℤ) (exists_char : ℕ → ℕ → Bool) (fonts : Fonts) where
  unfoldable pub separator_cell : ℕ → Cell
  separator_cell ch =
      let f = font_of (select_drawable_font exists_char fonts ch) in
      let ucs : ℕ = elim f [ none ↦ b'?' | some g ↦ ch ] in
      record { ucs = ucs; font = f; width = get_utf8_char_width xft_width ucs f }

  -- The loop of `initSeparator`, for at most `n` characters; a read behind the text is `none`.
  unfoldable pub separator_cells : ℕ → Bytes → Option (List Cell)
  separator_cells zero s = some []
  separator_cells (suc n) s = elim (decode_utf8_char s) [
    | none ↦ none
    | some r ↦
        let rest = separator_cells n (drop r.bytes_consumed s) in
        elim (r.ucs == 0) [
          | true ↦ some []
          | false ↦ elim rest [ none ↦ none | some cells ↦ some (separator_cell r.ucs ∷ cells) ]
        ]
  ]

  unfoldable pub init_separator : Option (List Cell)
  init_separator = separator_cells 2 sep_string

  -- `totalWidth`, summed up from 0.
  abbrev pub cells_width : ℤ → List Cell → ℤ
  cells_width x [] = x
  cells_width x (c ∷ cs) = cells_width (x +ℤ c.width) cs

  unfoldable pub counted_char : ℕ → ℤ → ℤ
  counted_char ch x = elim (select_drawable_font exists_char fonts ch) [
    | none ↦ x
    | some k ↦ x +ℤ get_utf8_char_width xft_width ch (some k.font)
  ]

  -- The loop of `renderAllElements` over the same text, for at most `n` characters.
  unfoldable pub counted_width : ℕ → Bytes → ℤ → Option ℤ
  counted_width zero s x = none
  counted_width (suc n) s x = elim (decode_utf8_char s) [
    | none ↦ none
    | some r ↦
        let rest = counted_width n (drop r.bytes_consumed s) (counted_char r.ucs x) in
        if r.ucs == 0 then some x else rest
  ]

  add_zero : (x : ℤ) → x +ℤ pos 0 ≡ x
  unfolding ◌+ℤ◌
  add_zero x = ground arith

  counted_cell : (ch : ℕ) (x : ℤ) → counted_char ch x ≡ x +ℤ (separator_cell ch).width
  unfolding counted_char separator_cell get_utf8_char_width
  counted_cell ch x = elim (Option-cases (select_drawable_font exists_char fonts ch)) [
    | inl lacking ↦ rw (counted_char, separator_cell, lacking) (sym (add_zero x))
    | inr (k, found) ↦ rw (counted_char, separator_cell, found) refl
  ]

  -- The width that is counted for a separator before the right side is placed is the width that the
  -- prepared separator takes.
  counted_width-init_separator :
      (cells : List Cell) × (init_separator ≡ some cells)
      × (counted_width 3 sep_string (pos 0) ≡ some (cells_width (pos 0) cells))
  unfolding init_separator separator_cells counted_width decode_utf8_char
  counted_width-init_separator = (
    separator_cell 32 ∷ separator_cell 0x258f ∷ [],
    refl,
    ap some (
        counted_cell 0x258f (counted_char 32 (pos 0))
        ∙ ap (λ (x : ℤ). x +ℤ (separator_cell 0x258f).width) (counted_cell 32 (pos 0))),
  )

-- `fillRect(m->pixmap, gc[GC_CLEAR], 0, 0, m->width, bh)` for each monitor.
unfoldable pub clear_monitors : Setup → List ℤ → Painter → List Op
clear_monitors s monitors p = map (λ w. fill_rect p.contexts.clear (pos 0) (pos 0) w s.bh) monitors

-- `parseModules`: the clearing, the colours of the two parse functions, and both sides; nothing but
-- the clearing where Xft gives no drawable. The contents have been parsed.
unfoldable pub parse_modules :
    (ℕ → ℤ)
    → (ℕ → ℕ → Bool)
    → (Bytes → Option ℕ)
    → {A : Type 0} → Bool
    → Setup
    → List ℤ
    → List Glyph
    → ℕ
    → ℕ
    → Sides A
    → Painter
    → Painter × List Op
parse_modules xft_width exists_char alloc drawable s monitors sep counted margin sides p =
    let clears = clear_monitors s monitors p in
    let parsed = apply_all alloc (elements_of sides.left ++ elements_of sides.right) p in
    let available = s.mon_width -ℤ pos margin in
    let start = available -ℤ pos (panels_width sides.right + (length sides.right - 1) * counted) in
    let (q, left) = render_panels xft_width exists_char alloc s sep sides.left (pos 0) parsed in
    let (r, right) = render_panels xft_width exists_char alloc s sep sides.right start q in
    if drawable then (r, clears ++ (left ++ right)) else (p, clears)

-- Where Xft gives a colour for every name and every font of the X server has an id, a frame leaves
-- the contexts with the bar's colours, if they held them before.
parse_modules-IsSynced :
    (pixel : Bytes → ℕ) (xft_width : ℕ → ℤ) (exists_char : ℕ → ℕ → Bool) (alloc : Bytes → Option ℕ)
    {A : Type 0} (drawable : Bool) (s : Setup) (monitors : List ℤ) (sep : List Glyph)
    (counted margin : ℕ) (sides : Sides A) (p : Painter)
    → ((name : Bytes) → alloc name ≡ some (pixel name))
    → All IsFont s.fonts.font_list
    → IsSynced pixel p
    → IsSynced pixel
        (parse_modules xft_width exists_char alloc drawable s monitors sep counted margin sides p).0
unfolding parse_modules
parse_modules-IsSynced pixel xft_width exists_char alloc false s monitors sep counted margin sides p
      given fonts h =
    h
parse_modules-IsSynced pixel xft_width exists_char alloc true s monitors sep counted margin sides p
      given fonts h =
    let parsed =
      apply_all-IsSynced pixel xft_width exists_char alloc given
        (elements_of sides.left ++ elements_of sides.right) p h in
    let left =
      render_panels-IsSynced pixel xft_width exists_char alloc given s sep sides.left (pos 0) _
        fonts parsed in
    render_panels-IsSynced pixel xft_width exists_char alloc given s sep sides.right _ _ fonts left
