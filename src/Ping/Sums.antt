-- ===== src/Ping/Sums.antt =====
-- The sums that `getNetworkIo` (modules/ping.h) makes of a text of /proc/net/dev.
use photonbar.Common.{
  ℕ, zero, suc, ◌+◌, ◌<◌, ◌≤◌, ◌≡◌, ◌∙◌, refl, sym, ap, arith, map, false, some, List, [], ◌∷◌,
  ◌++◌, ◌==◌, if◌then◌else◌, Bytes, ascii, bytes_eq, decimal, take_all, length, length-append,
  Bool-cases, inl, inr, All, ==_ne,
}
use photonbar.Common.Digits.{Ends, decimal-Reads}
use photonbar.Ping.{
  u64, fast_atoull, after_char, skip_blanks, skip_numbers, Traffic, net_line, net_lines,
  get_network_io,
}
use photonbar.Ping.Text.{
  Line, blanked, blanks, columns, line_text, Without, Small, after_char-append, fast_atoull-Reads,
  blanked-Ends, skip_numbers-blanked, decimals-AllRead, tail-Ends, is_loopback-name,
  skip_blanks-name, after_char-through, decimal_fuel-Without, blanked-newline, name_cons,
}

-- A line as the file has them.
pub record IsLine (l : Line) : Type 0 where
  pub name_colon : Without b':' l.name
  pub name_blank : Without 32 l.name
  pub name_newline : Without 10 l.name
  pub seven : length l.between ≡ 7
  pub recv_small : Small l.recv
  pub between_small : All Small l.between
  pub sent_small : Small l.sent
  pub tail_ends : Ends l.tail
  pub tail_newline : Without 10 l.tail

-- What the lines add up to: the received and the sent bytes, but for the loopback interface.
abbrev pub add_line : Line → Traffic → Traffic
add_line l t =
    if bytes_eq (ascii "lo") l.name
    then t
    else record { sent = u64 (t.sent + l.sent); recv = u64 (t.recv + l.recv) }

abbrev pub add_lines : List Line → Traffic → Traffic
add_lines [] t = t
add_lines (l ∷ ls) t = add_lines ls (add_line l t)

abbrev pub lines_text : List Line → Bytes
lines_text [] = []
lines_text (l ∷ ls) = line_text l (lines_text ls)

-- The columns give the two numbers, and the rest of the line.
columns_read :
    (l : Line) (s : Bytes)
    → IsLine l
    → (fast_atoull (columns l s)
        ≡ (l.recv, blanked (map decimal l.between) (32 ∷ (decimal l.sent ++ (l.tail ++ (10 ∷ s))))))
      × (fast_atoull (
            skip_numbers 7
              (blanked (map decimal l.between) (32 ∷ (decimal l.sent ++ (l.tail ++ (10 ∷ s))))))
          ≡ (l.sent, l.tail ++ (10 ∷ s)))
columns_read l s line =
    let last = 32 ∷ (decimal l.sent ++ (l.tail ++ (10 ∷ s))) in
    let first =
      fast_atoull-Reads l.recv (decimal l.recv) (blanked (map decimal l.between) last)
        (decimal-Reads l.recv line.recv_small) line.recv_small
        (blanked-Ends (map decimal l.between) last refl) in
    let middle =
      skip_numbers-blanked (map decimal l.between) l.between last
        (decimals-AllRead l.between line.between_small) refl in
    let final =
      fast_atoull-Reads l.sent (decimal l.sent) (l.tail ++ (10 ∷ s))
        (decimal-Reads l.sent line.sent_small) line.sent_small
        (tail-Ends l.tail s line.tail_ends) in
    (
      first,
      ap (λ (n : ℕ). fast_atoull (skip_numbers n (blanked (map decimal l.between) last)))
            (sym line.seven)
          ∙ ap fast_atoull middle
          ∙ final,
    )

-- The end of a line, from its name on.
line_newline :
    (l : Line) (s : Bytes) → IsLine l → after_char 10 (l.name ++ (b':' ∷ columns l s)) ≡ s
unfolding after_char
line_newline l s line =
    let last = decimal l.sent ++ (l.tail ++ (10 ∷ s)) in
    after_char-through 10 l.name (b':' ∷ columns l s) line.name_newline
    ∙ after_char-through 10 (decimal l.recv) (blanked (map decimal l.between) (32 ∷ last))
        (decimal_fuel-Without 20 l.recv)
    ∙ blanked-newline l.between (32 ∷ last)
    ∙ after_char-through 10 (decimal l.sent) (l.tail ++ (10 ∷ s)) (decimal_fuel-Without 20 l.sent)
    ∙ after_char-append 10 l.tail s line.tail_newline

net_line-Line :
    (l : Line) (s : Bytes) (t : Traffic)
    → IsLine l
    → net_line (l.name ++ (b':' ∷ columns l s)) t ≡ (add_line l t, s)
unfolding net_line
net_line-Line l s t line =
    let colon = after_char-append b':' l.name (columns l s) line.name_colon in
    let read = columns_read l s line in
    let loop = is_loopback-name l.name (columns l s) line.name_colon in
    elim (Bool-cases (bytes_eq (ascii "lo") l.name)) [
      | inl lo ↦ rw (loop, lo, line_newline l s line) refl
      | inr other ↦
          rw (loop, colon, read.0, read.1, other, after_char-append 10 l.tail s line.tail_newline)
            refl
    ]

-- Each round takes one line.
net_lines_step :
    (f : ℕ) (l : Line) (s : Bytes) (t : Traffic)
    → IsLine l
    → net_lines (suc f) (line_text l s) t ≡ net_lines f s (add_line l t)
unfolding net_lines
net_lines_step f l s t line =
    let p = l.name ++ (b':' ∷ columns l s) in
    let (c, cs, e) = name_cons l.name (columns l s) in
    let skip = skip_blanks-name l.indent l.name (columns l s) line.name_blank ∙ e in
    let here = net_line-Line l s t line in rw (net_lines, skip, rw e at here) refl

net_lines-add_lines :
    (ls : List Line) (f : ℕ) (t : Traffic)
    → All IsLine ls
    → length ls < f
    → net_lines f (lines_text ls) t ≡ some (add_lines ls t)
unfolding net_lines skip_blanks
net_lines-add_lines ls zero t h enough = absurd (omega (arith, enough))
net_lines-add_lines [] (suc f) t h enough = refl
net_lines-add_lines (l ∷ ls) (suc f) t h enough =
    net_lines_step f l (lines_text ls) t h.0
    ∙ net_lines-add_lines ls f (add_line l t) h.1 (omega (arith, enough))

length-blanks : (n : ℕ) (s : Bytes) → length s ≤ length (blanks n s)
length-blanks zero s = omega arith
length-blanks (suc n) s = omega (arith, length-blanks n s)

length-blanked : (ts : List Bytes) (s : Bytes) → length s ≤ length (blanked ts s)
length-blanked [] s = omega arith
length-blanked (t ∷ ts) s = omega (arith, length-append t (blanked ts s), length-blanked ts s)

line_longer : (l : Line) (s : Bytes) → length s < length (line_text l s)
line_longer l s =
    let last = 32 ∷ (decimal l.sent ++ (l.tail ++ (10 ∷ s))) in
    omega (
      arith,
      length-blanks l.indent (l.name ++ (b':' ∷ columns l s)),
      length-append l.name (b':' ∷ columns l s),
      length-append (decimal l.recv) (blanked (map decimal l.between) last),
      length-blanked (map decimal l.between) last,
      length-append (decimal l.sent) (l.tail ++ (10 ∷ s)),
      length-append l.tail (10 ∷ s),
    )

lines_long : (ls : List Line) → length ls ≤ length (lines_text ls)
lines_long [] = omega arith
lines_long (l ∷ ls) = omega (arith, line_longer l (lines_text ls), lines_long ls)

-- Of a text with two header lines and any interface lines behind them, each with a name without
-- colon, blank or line break and nine numbers below 2^64, within the 4095 bytes that are read, the
-- sums are those of the first and the ninth numbers of the interfaces not named lo, modulo 2^64.
pub get_network_io-add_lines :
    (h1 h2 : Bytes) (ls : List Line) (t : Traffic)
    → Without 10 h1
    → Without 10 h2
    → All IsLine ls
    → length (h1 ++ (10 ∷ (h2 ++ (10 ∷ lines_text ls)))) ≤ 4095
    → get_network_io (some (h1 ++ (10 ∷ (h2 ++ (10 ∷ lines_text ls))))) t
      ≡ some (add_lines ls (record { sent = 0; recv = 0 }))
unfolding get_network_io
get_network_io-add_lines h1 h2 ls t first second lines short =
    let content = h1 ++ (10 ∷ (h2 ++ (10 ∷ lines_text ls))) in
    let whole = take_all 4095 content short in
    let skip1 = after_char-append 10 h1 (h2 ++ (10 ∷ lines_text ls)) first in
    let skip2 = after_char-append 10 h2 (lines_text ls) second in
    let full : (length content == 0) ≡ false =
      ==_ne (length content) 0
        (omega (arith, length-append h1 (10 ∷ (h2 ++ (10 ∷ lines_text ls))))) in
    rw (whole, skip1, skip2, full)
      (net_lines-add_lines ls (suc (length (lines_text ls))) (record { sent = 0; recv = 0 }) lines
        (omega (arith, lines_long ls)))
