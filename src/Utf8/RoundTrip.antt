-- ===== src/Utf8/RoundTrip.antt =====
-- `decodeUtf8Char` of bar.h against the definition of UTF-8 (RFC 3629).
use photonbar.Common.{ℕ, ◌<◌, ◌≤◌, ◌≡◌, some, [], ◌∷◌, ◌++◌, Bytes, arith, length}
use photonbar.Utf8.{Utf8Result, encode_utf8, decode_utf8_char}

-- The encoding of every code point is decoded to that code point, and to its own length,
-- whatever follows it.
pub decode_utf8_char-encode :
    (c : ℕ) (rest : Bytes)
    → c < 1114112
    → decode_utf8_char (encode_utf8 c ++ rest)
      ≡ some (record { ucs = c; bytes_consumed = length (encode_utf8 c) })
unfolding decode_utf8_char
decode_utf8_char-encode c rest h = ground arith

-- Every answer takes one to four bytes, all of them inside the buffer.
decode_utf8_char_bounds :
    (s : Bytes) {r : Utf8Result}
    → decode_utf8_char s ≡ some r
    → (1 ≤ r.bytes_consumed) × (r.bytes_consumed ≤ 4) × (r.bytes_consumed ≤ length s)
unfolding decode_utf8_char
decode_utf8_char_bounds [] h = ground arith
decode_utf8_char_bounds (a ∷ []) h = ground arith
decode_utf8_char_bounds (a ∷ b ∷ []) h = ground arith
decode_utf8_char_bounds (a ∷ b ∷ c ∷ []) h = ground arith
decode_utf8_char_bounds (a ∷ b ∷ c ∷ d ∷ s) h = ground arith
