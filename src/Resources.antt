-- ===== src/Resources.antt =====
-- modules/resources.h: the use of memory and processor and the temperature. What the files of
-- /proc and /sys hold is an argument, `none` where a file cannot be
-- opened or read, or is empty.
pub mod Readings
pub mod Sensors
use photonbar.Common.{
  ℕ, zero, suc, ◌+◌, ◌-◌, ◌*◌, ◌%◌, Bool, true, false, not, ◌&&◌, Option, none, some, List, [], ◌∷◌,
  ◌++◌, ◌==◌, leb, ltb, if◌then◌else◌, Bytes, ascii, bytes_eq, take, drop, length, get_or,
}
use photonbar.Common.Int.{ℤ, pos}
use photonbar.Common.Floats.{Floats}
use photonbar.Color.Strtoul.{ulong_mod, skip_spaces}
use photonbar.Common.Digits.{scan_digits}
use photonbar.BarElement.{BarElement, new_element, set_text, set_color}
use photonbar.Palette.{default_color, muted_color}
use photonbar.Utf8.{encode_utf8}

pub record Resources : Type 0 where
  pub last_cpu_total : ℕ
  pub last_cpu_idle : ℕ
  pub ram : BarElement Unit
  pub cpu : BarElement Unit
  pub temp : BarElement Unit
  pub last_update : ℤ

unfoldable pub new_resources : Resources
new_resources = record {
  last_cpu_total = 0;
  last_cpu_idle = 0;
  ram = set_color default_color new_element;
  cpu = set_color default_color new_element;
  temp = set_color default_color new_element;
  last_update = pos 0;
}

abbrev pub starts_with : Bytes → Bytes → Bool
starts_with p s = bytes_eq p (take (length p) s)

-- `strtoull(s, &end, 10)` of a text that has no sign: spaces, then digits. Where there are none it
-- gives 0 and leaves the place; a number too large gives the largest.
unfoldable pub strtoull : Bytes → ℕ × Bytes
strtoull s =
    let (n, rest) = scan_digits 0 (skip_spaces s) in
    if length rest == length (skip_spaces s)
    then (0, s)
    else if leb ulong_mod n
    then (ulong_mod - 1, rest)
    else (n, rest)

-- One line of /proc/meminfo: the first total and the first available that are not zero count.
unfoldable pub meminfo_line : Bytes → ℕ × ℕ → ℕ × ℕ
meminfo_line line (total, avail) =
    if total == 0 && starts_with (ascii "MemTotal:") line
    then ((strtoull (drop 9 line)).0, avail)
    else if avail == 0 && starts_with (ascii "MemAvailable:") line
    then (total, (strtoull (drop 13 line)).0)
    else (total, avail)

-- The loop ends early when both are known.
unfoldable pub meminfo : List Bytes → ℕ × ℕ → ℕ × ℕ
meminfo [] found = found
meminfo (line ∷ lines) found =
    let (total, avail) = meminfo_line line found in
    let rest = meminfo lines (total, avail) in
    if not (total == 0) && not (avail == 0) then (total, avail) else rest

-- The eight numbers behind "cpu ".
unfoldable pub cpu_fields : ℕ → Bytes → List ℕ
cpu_fields zero s = []
cpu_fields (suc n) s = let (v, rest) = strtoull s in v ∷ cpu_fields n rest

abbrev pub u64 : ℕ → ℕ
u64 n = n % 18446744073709551616

-- The idle time and the total of the eight fields.
unfoldable pub cpu_times : List ℕ → ℕ × ℕ
cpu_times v =
    let at = λ (i : ℕ). get_or v i 0 in
    let idle = u64 (at 3 + at 4) in (idle, u64 (at 0 + at 1 + at 2 + idle + at 5 + at 6 + at 7))

-- `a - b` of two uint64_t.
abbrev pub sub_u64 : ℕ → ℕ → ℕ
sub_u64 a b = (a + 18446744073709551616 - b) % 18446744073709551616

-- What the processor did since the last reading: the differences of idle time and total, or
-- nothing where there was no reading or no time has gone by.
unfoldable pub cpu_step : ℕ × ℕ → Resources → Resources × Option (ℕ × ℕ)
cpu_step (idle, total) r =
    let next = record r { last_cpu_total = total; last_cpu_idle = idle } in
    let diff_total = sub_u64 total r.last_cpu_total in
    let diff_idle = sub_u64 idle r.last_cpu_idle in
    if r.last_cpu_total == 0
    then (next, none)
    else if diff_total == 0
    then (next, none)
    else (next, some (diff_idle, diff_total))

-- The digits of one sensor: the loop runs while the character is not below '0', which is signed.
unfoldable pub temp_digits : ℕ → Bytes → ℕ
temp_digits v [] = v
temp_digits v (c ∷ cs) =
    let rest = temp_digits (v * 10 + (c - b'0')) cs in if leb b'0' c && ltb c 128 then rest else v

-- The largest of the sensors that can be read, in thousandths of a degree.
unfoldable pub max_milli : ℕ → List (Option Bytes) → ℕ
max_milli best [] = best
max_milli best (none ∷ rest) = max_milli best rest
max_milli best (some text ∷ rest) =
    let v = temp_digits 0 (take 15 text) in max_milli (if ltb best v then v else best) rest

module _ {W : Type 0} (f : Floats W) where
  unfoldable pub get_ram_usage : Option (List Bytes) → W
  get_ram_usage none = f.of_int (pos 0)
  get_ram_usage (some lines) =
      let (total, avail) = meminfo lines (0, 0) in
      let hundred = f.of_int (pos 100) in
      if total == 0
      then f.of_int (pos 0)
      else f.sub hundred (f.div (f.mul (f.of_int (pos avail)) hundred) (f.of_int (pos total)))

  unfoldable pub get_cpu_usage : Option Bytes → Resources → Resources × W
  get_cpu_usage none r = (r, f.of_int (pos 0))
  get_cpu_usage (some text) r =
      let (next, diff) = cpu_step (cpu_times (cpu_fields 8 (drop 4 (take 255 text)))) r in
      elim diff [
        | none ↦ (next, f.of_int (pos 0))
        | some (idle, total) ↦ (
          next,
          f.mul (f.of_int (pos 100))
              (f.sub (f.of_int (pos 1)) (f.div (f.of_int (pos idle)) (f.of_int (pos total)))),
        )
      ]

  unfoldable pub get_cpu_temp : List (Option Bytes) → W
  get_cpu_temp sensors = f.mul (f.of_int (pos (max_milli 0 sensors))) (f.decimal 1 3)

  -- One element: its text, and the alert colour above the threshold.
  unfoldable pub show_usage : Bytes → W → ℕ → BarElement Unit → BarElement Unit
  show_usage text level warn e =
      let color = if f.less (f.of_int (pos warn)) level then muted_color else default_color in
      set_color color (set_text text e)

  unfoldable pub update :
      Option (List Bytes) → Option Bytes → List (Option Bytes) → ℤ → Resources → Resources
  update memory stat sensors now r =
      let ram = get_ram_usage memory in
      let (next, cpu) = get_cpu_usage stat r in
      let temp = get_cpu_temp sensors in
      let ram_text =
        encode_utf8 0xefc5 ++ (32 ∷ (f.fixed 1 ram ++ (ascii "% " ++ encode_utf8 0x258f))) in
      let cpu_text = encode_utf8 0xf4bc ++ (32 ∷ (f.fixed 1 cpu ++ ascii "% ")) in
      let temp_text =
        32 ∷ (encode_utf8 0xf2c9 ++ (32 ∷ (f.fixed 0 temp ++ (encode_utf8 0xb0 ++ ascii "C")))) in
      record next {
        ram = show_usage ram_text ram 80 next.ram;
        cpu = show_usage cpu_text cpu 80 next.cpu;
        temp = show_usage temp_text temp 70 next.temp;
        last_update = now;
      }
