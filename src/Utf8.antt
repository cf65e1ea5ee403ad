-- ===== src/Utf8.antt =====
-- bar.h, `decodeUtf8Char` and `UTF8Result`. The argument is the memory from the pointer on, up
-- to the end of the buffer; `none` is a read outside it. Masks and shifts are written with `%`
-- and `*`: `(u & 0xe0) == 0xc0` holds of the bytes from 0xc0 up to 0xdf.
pub mod RoundTrip
use photonbar.Common.{
  ℕ, ◌+◌, ◌*◌, ◌/◌, ◌%◌, Bool, ◌&&◌, Option, none, some, List, [], ◌∷◌, ltb, leb, if◌then◌else◌,
  Bytes,
}

pub record Utf8Result : Type 0 where
  pub ucs : ℕ
  pub bytes_consumed : ℕ

abbrev pub within : ℕ → ℕ → ℕ → Bool
within lo hi c = leb lo c && leb c hi

decode2 : Bytes → Option Utf8Result
decode2 (a ∷ b ∷ _) = some (record { ucs = a % 32 * 64 + b % 64; bytes_consumed = 2 })
decode2 _ = none

decode3 : Bytes → Option Utf8Result
decode3 (a ∷ b ∷ c ∷ _) =
    some (record { ucs = a % 16 * 4096 + b % 64 * 64 + c % 64; bytes_consumed = 3 })
decode3 _ = none

decode4 : Bytes → Option Utf8Result
decode4 (a ∷ b ∷ c ∷ d ∷ _) =
    some
      (record { ucs = a % 8 * 262144 + b % 64 * 4096 + c % 64 * 64 + d % 64; bytes_consumed = 4 })
decode4 _ = none

unfoldable pub decode_utf8_char : Bytes → Option Utf8Result
unfolding decode2 decode3 decode4
decode_utf8_char [] = none
decode_utf8_char (a ∷ rest) =
    if ltb a 128
    then some (record { ucs = a; bytes_consumed = 1 })
    else if within 192 223 a
    then decode2 (a ∷ rest)
    else if within 224 239 a
    then decode3 (a ∷ rest)
    else if within 240 247 a
    then decode4 (a ∷ rest)
    else some (record { ucs = a; bytes_consumed = 1 })

-- The encoding of a code point (RFC 3629), which is also what the compiler makes of `\u`.
abbrev pub encode_utf8 : ℕ → Bytes
encode_utf8 c =
    if ltb c 128
    then c ∷ []
    else if ltb c 2048
    then (192 + c / 64) ∷ (128 + c % 64) ∷ []
    else if ltb c 65536
    then (224 + c / 4096) ∷ (128 + c / 64 % 64) ∷ (128 + c % 64) ∷ []
    else (240 + c / 262144) ∷ (128 + c / 4096 % 64) ∷ (128 + c / 64 % 64) ∷ (128 + c % 64) ∷ []
