-- ===== src/Audio/Volume.antt =====
-- The volume in percent and in PulseAudio's units (modules/audio.h).
use photonbar.Common.{ℕ, ◌-◌, ◌*◌, ◌/◌, ◌%◌, ◌<◌, ◌≡◌, arith, ◌==◌, if◌then◌else◌}
use photonbar.Common.Int.{pos}
use photonbar.Common.Format.{to_int_small}
use photonbar.Audio.{read_volume, write_volume}

-- With PulseAudio's norm of 65536, a volume up to 32767 percent, behind which the product in the code
-- is no int any more, is read back exactly when it is a multiple of 25 percent, and as one percent
-- less otherwise: the conversions round down both ways.
pub read_volume-write_volume :
    (volume_norm v : ℕ)
    → volume_norm ≡ 65536
    → v < 32768
    → read_volume volume_norm (write_volume volume_norm v) ≡ pos (if v % 25 == 0 then v else v - 1)
unfolding read_volume write_volume
read_volume-write_volume volume_norm v e h =
    let product : 65536 * v / 100 * 100 % 4294967296 ≡ 65536 * v / 100 * 100 = omega (arith, h) in
    let quotient : 65536 * v / 100 * 100 / 65536 < 2147483648 = omega (arith, h) in
    rw (e, product, to_int_small (65536 * v / 100 * 100 / 65536) quotient) (ground (arith, h))
