-- ===== src/Tests/Services.antt =====
-- The connection to PulseAudio and the request for a text, on small inputs.
use photonbar.Common.{◌%◌, ◌≡◌, some, [], ◌∷◌, map, length, arith}
use photonbar.Common.Int.{pos, negsuc}
use photonbar.Paint.Draw.{swap16}
use photonbar.Paint.PolyText.{poly_text_16, read_poly_text, read-poly_text_16}

read-poly_text_16_example :
    (read_poly_text
        (poly_text_16 75 6 2097160 2097161 (negsuc 3) (pos 14) (map swap16 (9615 ∷ 65 ∷ [])))
      ≡ some (record {
        drawable = 2097160;
        gc = 2097161;
        x = 65532;
        y = 14;
        delta = 0;
        chars = 9615 ∷ 65 ∷ [];
      }))
    × (length (poly_text_16 75 6 2097160 2097161 (negsuc 3) (pos 14) (map swap16 (9615 ∷ 65 ∷ [])))
          % 4
        ≡ 0)
read-poly_text_16_example =
    read-poly_text_16 75 6 2097160 2097161 (negsuc 3) (pos 14) (9615 ∷ 65 ∷ []) (omega arith)
      (omega arith) (omega arith) (omega arith)
