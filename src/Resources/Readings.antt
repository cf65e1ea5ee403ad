-- ===== src/Resources/Readings.antt =====
-- The readings of modules/resources.h against what they stand for.
use photonbar.Common.{
  ℕ, ◌-◌, ◌<◌, ◌≤◌, ◌≡◌, ◌≢◌, arith, Option, none, some, List, [], ◌∷◌, ltb, if◌then◌else◌, Bytes,
  take,
}
use photonbar.Resources.{Resources, cpu_step, temp_digits, max_milli}

-- The difference of two readings of which neither went back is exact.
cpu_step_exact :
    (idle total : ℕ) (r : Resources)
    → r.last_cpu_total ≢ 0
    → r.last_cpu_total < total
    → r.last_cpu_idle ≤ idle
    → total < 18446744073709551616
    → idle < 18446744073709551616
    → (cpu_step (idle, total) r).1 ≡ some (idle - r.last_cpu_idle, total - r.last_cpu_total)
unfolding cpu_step
cpu_step_exact idle total r seen more kept small low = ground (arith, seen, more, kept, small, low)

-- The largest of the sensors that can be read.
abbrev pub Covers : ℕ → List (Option Bytes) → Type 0
Covers m [] = Unit
Covers m (none ∷ rest) = Covers m rest
Covers m (some text ∷ rest) = (temp_digits 0 (take 15 text) ≤ m) × Covers m rest

max_milli-le : (best : ℕ) (sensors : List (Option Bytes)) → best ≤ max_milli best sensors
unfolding max_milli
max_milli-le best [] = omega arith
max_milli-le best (none ∷ rest) = max_milli-le best rest
max_milli-le best (some text ∷ rest) = ground (
  arith,
  max_milli-le
      (if ltb best (temp_digits 0 (take 15 text)) then temp_digits 0 (take 15 text) else best) rest,
)

-- No sensor that can be read shows more than the result.
max_milli-Covers :
    (best : ℕ) (sensors : List (Option Bytes)) → Covers (max_milli best sensors) sensors
unfolding max_milli
max_milli-Covers best [] = tt
max_milli-Covers best (none ∷ rest) = max_milli-Covers best rest
max_milli-Covers best (some text ∷ rest) =
    let v = temp_digits 0 (take 15 text) in
    let next = if ltb best v then v else best in
    let up = max_milli-le next rest in (ground (arith, up), max_milli-Covers next rest)
