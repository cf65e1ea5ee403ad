-- ===== src/Geometry/Text.antt =====
-- `parseGeometryString` (bar.h) reads what is printed as WxH+X+Y.
use photonbar.Common.{
  ℕ, suc, ◌+◌, ◌-◌, ◌<◌, ◌≤◌, ◌≡◌, ◌∙◌, refl, ap, arith, true, false, some, List, [], ◌∷◌, ◌++◌,
  ◌==◌, Bytes, decimal, length, length-append, append-nil, set,
}
use photonbar.Common.Int.{ℤ, pos}
use photonbar.Common.Format.{to_int_small}
use photonbar.Common.Digits.{scan_digits, Ends, Reads, decimal-Reads}
use photonbar.Geometry.{Turn, number_field, geometry_turn, geometry_loop, parse_geometry_string}

-- The text of a geometry.
abbrev pub geometry_text : (w h x y : ℕ) → Bytes
geometry_text w h x y =
    decimal w ++ (b'x' ∷ (decimal h ++ (b'+' ∷ (decimal x ++ (b'+' ∷ decimal y)))))

number_turn :
    (n i d : ℕ) (t u s : Bytes) (tmp : List ℤ)
    → t ≡ (48 + d) ∷ u
    → d < 10
    → scan_digits 0 (t ++ s) ≡ (n, s)
    → n < 2147483648
    → i < 4
    → geometry_turn (t ++ s) i tmp ≡ Turn.go s i (set tmp i (pos n))
unfolding geometry_turn number_field
number_turn n i d t u s tmp e digit scanned small below =
    ground (arith, e, scanned, to_int_small n small)

loop_go :
    (f : ℕ) (s : Bytes) (i : ℕ) (tmp : List ℤ) {r : Bytes} {j : ℕ} {out : List ℤ}
    → geometry_turn s i tmp ≡ Turn.go r j out
    → geometry_loop (suc f) s i tmp ≡ geometry_loop f r j out
unfolding geometry_loop
loop_go f s i tmp e = rw (geometry_loop, e) refl

turn_x : (s : Bytes) (tmp : List ℤ) → geometry_turn (b'x' ∷ s) 0 tmp ≡ Turn.go s 1 tmp
unfolding geometry_turn
turn_x s tmp = refl

turn_plus :
    (i : ℕ) (s : Bytes) (tmp : List ℤ)
    → 0 < i
    → i < 3
    → geometry_turn (b'+' ∷ s) i tmp ≡ Turn.go s (i + 1) tmp
unfolding geometry_turn
turn_plus i s tmp lo hi = ground arith

loop_end : (f i : ℕ) (tmp : List ℤ) → geometry_loop (suc f) [] i tmp ≡ some (true, tmp)
unfolding geometry_loop geometry_turn
loop_end f i tmp = refl

-- A number, and the loop behind it.
loop_number :
    (f n i : ℕ) (t s : Bytes) (tmp : List ℤ)
    → Reads t n
    → n < 2147483648
    → i < 4
    → Ends s
    → geometry_loop (suc f) (t ++ s) i tmp ≡ geometry_loop f s i (set tmp i (pos n))
loop_number f n i t s tmp ((d, u, e, digit), reads) small below end =
    loop_go f (t ++ s) i tmp (number_turn n i d t u s tmp e digit (reads s end) small below)

-- The whole loop over four numbers.
loop_fields :
    (k : ℕ) (w h x y : ℕ) (tw th tx ty : Bytes) (a b c d : ℤ)
    → Reads tw w × Reads th h × Reads tx x × Reads ty y
    → (w < 2147483648) × (h < 2147483648) × (x < 2147483648) × (y < 2147483648)
    → geometry_loop
        (suc (suc (suc (suc (suc (suc (suc (suc k))))))))
        (tw ++ (b'x' ∷ (th ++ (b'+' ∷ (tx ++ (b'+' ∷ (ty ++ [])))))))
        0
        (a ∷ b ∷ c ∷ d ∷ [])
      ≡ some (true, pos w ∷ pos h ∷ pos x ∷ pos y ∷ [])
loop_fields k w h x y tw th tx ty a b c d (rw_, rh, rx, ry) (sw, sh, sx, sy) =
    loop_number _ w 0 tw _ _ rw_ sw (omega arith) refl
    ∙ loop_go _ _ _ _ (turn_x _ _)
    ∙ loop_number _ h 1 th _ _ rh sh (omega arith) refl
    ∙ loop_go _ _ _ _ (turn_plus 1 _ _ (omega arith) (omega arith))
    ∙ loop_number _ x 2 tx _ _ rx sx (omega arith) refl
    ∙ loop_go _ _ _ _ (turn_plus 2 _ _ (omega arith) (omega arith))
    ∙ loop_number _ y 3 ty [] _ ry sy (omega arith) tt
    ∙ loop_end k 3 _

Reads-length : (t : Bytes) (n : ℕ) → Reads t n → 0 < length t
Reads-length t n ((d, u, e, digit), reads) = omega (arith, ap length e)

parse_digit :
    (t s u : Bytes) (d : ℕ) (tmp : List ℤ)
    → t ≡ (48 + d) ∷ u
    → d < 10
    → parse_geometry_string (some (t ++ s)) tmp
      ≡ geometry_loop (suc (length (t ++ s))) (t ++ s) 0 tmp
unfolding parse_geometry_string
parse_digit t s u d tmp e digit =
    let other : ((48 + d) == 61) ≡ false = ground arith in rw (e, other) refl

text_length :
    (tw th tx ty : Bytes)
    → (0 < length tw) × (0 < length th) × (0 < length tx) × (0 < length ty)
    → 7 ≤ length (tw ++ (b'x' ∷ (th ++ (b'+' ∷ (tx ++ (b'+' ∷ (ty ++ [])))))))
text_length tw th tx ty (hw, hh, hx, hy) = omega (
  arith,
  length-append tw (b'x' ∷ (th ++ (b'+' ∷ (tx ++ (b'+' ∷ (ty ++ [])))))),
  length-append th (b'+' ∷ (tx ++ (b'+' ∷ (ty ++ [])))),
  length-append tx (b'+' ∷ (ty ++ [])),
  length-append ty [],
)

parse_fields :
    (w h x y : ℕ) (tw th tx ty : Bytes) (a b c d : ℤ)
    → Reads tw w × Reads th h × Reads tx x × Reads ty y
    → (w < 2147483648) × (h < 2147483648) × (x < 2147483648) × (y < 2147483648)
    → parse_geometry_string
        (some (tw ++ (b'x' ∷ (th ++ (b'+' ∷ (tx ++ (b'+' ∷ (ty ++ []))))))))
        (a ∷ b ∷ c ∷ d ∷ [])
      ≡ some (true, pos w ∷ pos h ∷ pos x ∷ pos y ∷ [])
parse_fields w h x y tw th tx ty a b c d (((e, u, at, digit), reads), rh, rx, ry) small =
    let rest = b'x' ∷ (th ++ (b'+' ∷ (tx ++ (b'+' ∷ (ty ++ []))))) in
    let long = text_length tw th tx ty (
      omega (arith, ap length at),
      Reads-length th h rh,
      Reads-length tx x rx,
      Reads-length ty y ry,
    ) in
    let k = length (tw ++ rest) - 7 in
    let fuel : suc (length (tw ++ rest)) ≡ suc (suc (suc (suc (suc (suc (suc (suc k))))))) =
      omega (arith, long) in
    parse_digit tw rest u e (a ∷ b ∷ c ∷ d ∷ []) at digit
    ∙ ap (λ (f : ℕ). geometry_loop f (tw ++ rest) 0 (a ∷ b ∷ c ∷ d ∷ [])) fuel
    ∙ loop_fields k w h x y tw th tx ty a b c d (((e, u, at, digit), reads), rh, rx, ry) small

-- A geometry that is printed as WxH+X+Y, each number below 2^31, is read back.
pub parse_geometry_string-geometry_text :
    (w h x y : ℕ) (a b c d : ℤ)
    → w < 2147483648
    → h < 2147483648
    → x < 2147483648
    → y < 2147483648
    → parse_geometry_string (some (geometry_text w h x y)) (a ∷ b ∷ c ∷ d ∷ [])
      ≡ some (true, pos w ∷ pos h ∷ pos x ∷ pos y ∷ [])
parse_geometry_string-geometry_text w h x y a b c d sw sh sx sy =
    let fields =
      parse_fields w h x y (decimal w) (decimal h) (decimal x) (decimal y) a b c d
        (
          decimal-Reads w (omega (arith, sw)),
          decimal-Reads h (omega (arith, sh)),
          decimal-Reads x (omega (arith, sx)),
          decimal-Reads y (omega (arith, sy)),
        )
        (sw, sh, sx, sy) in
    rw (append-nil (decimal y)) at fields
