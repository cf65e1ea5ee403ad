-- ===== src/Content/RoundTrip.antt =====
-- What `parseElementContent` of bar.h makes of a text in UTF-8.
use photonbar.Common.{
  take-append, drop-append, length-map, ℕ, zero, suc, ◌+◌, ◌/◌, ◌%◌, sym, Bool-cases, inl, inr, ◌<◌,
  ◌≤◌, ◌≡◌, ◌≢◌, ◌∙◌, refl, ap, true, false, Option, some, List, [], ◌∷◌, ◌++◌, map, arith, ◌==◌,
  ◌||◌, ltb, Bytes, length, take, drop, All, append_assoc,
}
use photonbar.Common.Int.{ℤ}
use photonbar.BarElement.{BarElement}
use photonbar.Utf8.{Utf8Result, encode_utf8, decode_utf8_char}
use photonbar.Utf8.RoundTrip.{decode_utf8_char-encode}
use photonbar.Content.{
  Chars, drawn, char_width, parse_chars, store_chars, parse_element_content, sum,
}

-- A code point that ends no text.
pub record IsText (c : ℕ) : Type 0 where
  pub point : c < 1114112
  pub nonzero : c ≢ 0
  pub inline : c ≢ 10

abbrev pub encode_text : List ℕ → Bytes
encode_text [] = []
encode_text (c ∷ cs) = encode_utf8 c ++ encode_text cs

encode_head :
    (c : ℕ) (t : Bytes)
    → IsText c
    → (b : ℕ) × (s : Bytes) × (encode_utf8 c ++ t ≡ (b ∷ s)) × ((b == 0 || b == 10) ≡ false)
encode_head c t h =
    let nonzero = h.nonzero in
    let inline = h.inline in
    elim (Bool-cases (ltb c 128)) [
      | inl e ↦ (c, t, rw e refl, ground (arith, nonzero, inline))
      | inr e ↦ elim (Bool-cases (ltb c 2048)) [
        | inl f ↦ (192 + c / 64, (128 + c % 64) ∷ t, rw (e, f) refl, ground arith)
        | inr f ↦ elim (Bool-cases (ltb c 65536)) [
          | inl g ↦ (
            224 + c / 4096,
            (128 + c / 64 % 64) ∷ (128 + c % 64) ∷ t,
            rw (e, f, g) refl,
            ground arith,
          )
          | inr g ↦ (
            240 + c / 262144,
            (128 + c / 4096 % 64) ∷ (128 + c / 64 % 64) ∷ (128 + c % 64) ∷ t,
            rw (e, f, g) refl,
            ground arith,
          )
        ]
      ]
    ]

module _ (glyph : ℕ → Option ℤ) where
  abbrev chars_of : List ℕ → Chars
  chars_of cs = record {
    ucs = map (drawn glyph) cs;
    widths = map (char_width glyph) cs;
    ended = true;
  }

  parse_step :
      (n b : ℕ) (s : Bytes) (r : Utf8Result) (k : Chars)
      → (b == 0 || b == 10) ≡ false
      → decode_utf8_char (b ∷ s) ≡ some r
      → parse_chars glyph n (drop r.bytes_consumed (b ∷ s)) ≡ some k
      → parse_chars glyph (suc n) (b ∷ s)
        ≡ some (record {
          ucs = drawn glyph r.ucs ∷ k.ucs;
          widths = char_width glyph r.ucs ∷ k.widths;
          ended = k.ended;
        })
  unfolding parse_chars
  parse_step n b s r k goes decoded later = rw (goes, decoded, later) refl

  parse_chars-encode :
      (n : ℕ) (cs : List ℕ) (rest : Bytes)
      → All IsText cs
      → length cs < n
      → parse_chars glyph n (encode_text cs ++ (0 ∷ rest)) ≡ some (chars_of cs)
  unfolding parse_chars
  parse_chars-encode zero cs rest h k = absurd (omega (arith, k))
  parse_chars-encode (suc n) [] rest h k = refl
  parse_chars-encode (suc n) (c ∷ cs) rest h k =
      let (b, s, e, t) = encode_head c (encode_text cs ++ (0 ∷ rest)) h.0 in
      let later = parse_chars-encode n cs rest h.1 (omega (arith, k)) in
      ap (parse_chars glyph (suc n)) (append_assoc (encode_utf8 c) (encode_text cs) (0 ∷ rest) ∙ e)
      ∙ parse_step n b s (record { ucs = c; bytes_consumed = length (encode_utf8 c) }) (chars_of cs)
          t
          (ap decode_utf8_char (sym e)
            ∙ decode_utf8_char-encode c (encode_text cs ++ (0 ∷ rest)) (h.0).point)
          (ap (λ x. parse_chars glyph n (drop (length (encode_utf8 c)) x)) (sym e)
            ∙ ap (parse_chars glyph n) (drop-append (encode_utf8 c) (encode_text cs ++ (0 ∷ rest)))
            ∙ later)

  parse_found :
      {A : Type 0} (e : BarElement A) (k : Chars)
      → e.dirty_content ≡ true
      → parse_chars glyph 255 e.content ≡ some k
      → parse_element_content glyph e ≡ some (store_chars glyph k e)
  unfolding parse_element_content
  parse_found e k dirty found = ground (arith, dirty, found)

  -- The text of up to 254 characters that an element holds, ended by a zero byte, is stored as
  -- those characters, with a question mark for each that no font draws, if the element is marked
  -- for it; the width is the sum of their widths modulo 65536. A second call changes nothing.
  pub parse_element_content-encode :
      {A : Type 0} (cs : List ℕ) (rest : Bytes) (e : BarElement A)
      → All IsText cs
      → length cs ≤ 254
      → e.dirty_content ≡ true
      → e.content ≡ encode_text cs ++ (0 ∷ rest)
      → (e' : BarElement A) × (parse_element_content glyph e ≡ some e')
        × (take e'.ucs_content_len e'.ucs_content ≡ map (drawn glyph) cs)
        × (e'.ucs_content_len ≡ length cs)
        × (e'.width ≡ sum (map (char_width glyph) cs) % 65536)
        × (parse_element_content glyph e' ≡ some e')
  unfolding parse_element_content store_chars
  parse_element_content-encode cs rest e text short dirty holds =
      let same = parse_chars-encode 255 cs rest text (omega (arith, short)) in
      (
        store_chars glyph (chars_of cs) e,
        parse_found e (chars_of cs) dirty (ap (parse_chars glyph 255) holds ∙ same),
        take-append (map (drawn glyph) cs) _,
        length-map (drawn glyph) cs,
        refl,
        refl,
      )
