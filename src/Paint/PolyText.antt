-- ===== src/Paint/PolyText.antt =====
-- bar.h, `xcb_poly_text_16_simple`: the bytes of the request that draws a text in a font of the X
-- server. `xcb_send_request` puts the opcode and the length into the first four bytes, and zeros
-- where a part has no address; its numbers are little-endian, as the machine's.
use photonbar.Common.{
  ℕ, zero, suc, ◌+◌, ◌-◌, ◌*◌, ◌/◌, ◌%◌, ◌<◌, ◌≡◌, refl, ap, Option, none, some, List, [], ◌∷◌,
  ◌++◌, map, length, length-append, length-map, All, Bytes, arith,
}
use photonbar.Common.Int.{ℤ, pos, negsuc}
use photonbar.Layout.{to_uint16}
use photonbar.Paint.Draw.{swap16}

abbrev pub le16 : ℕ → Bytes
le16 n = n % 256 ∷ n / 256 % 256 ∷ []

abbrev pub le32 : ℕ → Bytes
le32 n = n % 256 ∷ n / 256 % 256 ∷ n / 65536 % 256 ∷ n / 16777216 % 256 ∷ []

-- `-n & 3` bytes.
abbrev pub zeros : ℕ → Bytes
zeros zero = []
zeros (suc n) = 0 ∷ zeros n

abbrev pub padding : ℕ → ℕ
padding n = (4 - n % 4) % 4

-- The words of the text, as they stand in memory.
abbrev pub words : List ℕ → Bytes
words [] = []
words (w ∷ ws) = w % 256 ∷ w / 256 % 256 ∷ words ws

-- `xcb_out`, between what `xcb_send_request` puts into its first four bytes.
abbrev pub header : ℕ → ℕ → ℕ → ℕ → ℤ → ℤ → Bytes
header opcode size drawable gc x y =
    opcode
    ∷ 0
    ∷ (le16 size ++ (le32 drawable ++ (le32 gc ++ (le16 (to_uint16 x) ++ le16 (to_uint16 y)))))

-- The parts 2 to 6 of `xcb_parts`, one after another.
unfoldable pub poly_text_16 : ℕ → ℕ → ℕ → ℕ → ℤ → ℤ → List ℕ → Bytes
poly_text_16 opcode size drawable gc x y str =
    let out = header opcode size drawable gc x y in
    let len = length str in
    let delta : Bytes = len % 256 ∷ 0 ∷ [] in
    out ++ (zeros (padding 16) ++ (delta ++ (words str ++ zeros (padding (2 + 2 * len)))))

-- What a request says by the X protocol: the drawable, the context, the corner, and a first item
-- of text with its delta and its characters, high byte first.
pub record PolyText : Type 0 where
  pub drawable : ℕ
  pub gc : ℕ
  pub x : ℕ
  pub y : ℕ
  pub delta : ℕ
  pub chars : List ℕ

abbrev pub of_le16 : ℕ → ℕ → ℕ
of_le16 a b = a + b * 256

abbrev pub of_le32 : ℕ → ℕ → ℕ → ℕ → ℕ
of_le32 a b c d = a + b * 256 + c * 65536 + d * 16777216

-- The first `n` characters.
pub read_chars : ℕ → Bytes → Option (List ℕ)
read_chars zero s = some []
read_chars (suc n) (hi ∷ lo ∷ s) = elim (read_chars n s) [
  | none ↦ none
  | some cs ↦ some ((hi * 256 + lo) ∷ cs)
]
read_chars (suc n) _ = none

pub read_poly_text : Bytes → Option PolyText
unfolding read_chars
read_poly_text
      (op ∷ pad ∷ l0 ∷ l1 ∷ d0 ∷ d1 ∷ d2 ∷ d3 ∷ g0 ∷ g1 ∷ g2 ∷ g3 ∷ x0 ∷ x1 ∷ y0 ∷ y1 ∷ n ∷ delta
        ∷ s) =
    elim (read_chars n s) [
      | none ↦ none
      | some cs ↦ some (record {
        drawable = of_le32 d0 d1 d2 d3;
        gc = of_le32 g0 g1 g2 g3;
        x = of_le16 x0 x1;
        y = of_le16 y0 y1;
        delta = delta;
        chars = cs;
      })
    ]
read_poly_text _ = none

length-words : (ws : List ℕ) → length (words ws) ≡ 2 * length ws
length-words [] = refl
length-words (w ∷ ws) = omega (arith, length-words ws)

length-zeros : (n : ℕ) → length (zeros n) ≡ n
length-zeros zero = refl
length-zeros (suc n) = ap suc (length-zeros n)

-- A request is a whole number of 32-bit units, whatever the text.
poly_text_16-aligned :
    (opcode size drawable gc : ℕ) (x y : ℤ) (str : List ℕ)
    → length (poly_text_16 opcode size drawable gc x y str) % 4 ≡ 0
unfolding poly_text_16
poly_text_16-aligned opcode size drawable gc x y str =
    let len = length str in
    let pad = padding (2 + 2 * len) in
    let tail : length (words str ++ zeros pad) ≡ 2 * len + pad =
      omega (arith, length-append (words str) (zeros pad), length-words str, length-zeros pad) in
    omega (arith, tail)

read_chars-words :
    (cs : List ℕ) (rest : Bytes)
    → All (λ c. c < 65536) cs
    → read_chars (length cs) (words (map swap16 cs) ++ rest) ≡ some cs
unfolding read_chars
read_chars-words [] rest h = refl
read_chars-words (c ∷ cs) rest h =
    let high : swap16 c % 256 * 256 + swap16 c / 256 % 256 ≡ c = omega (arith, h.0) in
    rw (read_chars-words cs rest h.1, high) refl

read_le16 : (n : ℕ) → n < 65536 → of_le16 (n % 256) (n / 256 % 256) ≡ n
read_le16 n h = omega arith

read_le32 :
    (n : ℕ)
    → n < 4294967296
    → of_le32 (n % 256) (n / 256 % 256) (n / 65536 % 256) (n / 16777216 % 256) ≡ n
read_le32 n h = omega arith

to_uint16-lt : (x : ℤ) → to_uint16 x < 65536
to_uint16-lt (pos n) = omega arith
to_uint16-lt (negsuc n) = omega arith

-- A text of less than 255 characters of 16 bits, which are swapped as `drawChar` swaps its one, is
-- read from the request as it was, with the drawable, the context and the corner that were given,
-- and the request is a whole number of 32-bit units.
pub read-poly_text_16 :
    (opcode size drawable gc : ℕ) (x y : ℤ) (cs : List ℕ)
    → drawable < 4294967296
    → gc < 4294967296
    → length cs < 255
    → All (λ c. c < 65536) cs
    → (read_poly_text (poly_text_16 opcode size drawable gc x y (map swap16 cs))
        ≡ some (record {
          drawable = drawable;
          gc = gc;
          x = to_uint16 x;
          y = to_uint16 y;
          delta = 0;
          chars = cs;
        }))
      × (length (poly_text_16 opcode size drawable gc x y (map swap16 cs)) % 4 ≡ 0)
unfolding poly_text_16 read_poly_text
read-poly_text_16 opcode size drawable gc x y cs d g short small =
    let len : length (map swap16 cs) % 256 ≡ length cs = omega (arith, length-map swap16 cs) in
    let rest = zeros (padding (2 + 2 * length (map swap16 cs))) in
    (
      rw (len, read_chars-words cs rest small, read_poly_text)
          (rw
            (
              read_le32 drawable d,
              read_le32 gc g,
              read_le16 (to_uint16 x) (to_uint16-lt x),
              read_le16 (to_uint16 y) (to_uint16-lt y),
            )
            refl),
      poly_text_16-aligned opcode size drawable gc x y (map swap16 cs),
    )
