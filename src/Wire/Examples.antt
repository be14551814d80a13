-- ===== src/Wire/Examples.antt =====
-- Frames at concrete inputs.
use tarion.Base.{◌≡◌, refl, ◌≢◌, [], ◌∷◌, ok}
use tarion.Text.{Text, text}
use tarion.Wire.{write_frame, put_uint32, read_frame}
use tarion.Wire.RoundTrip.{read_frame-write_frame}

abbrev json : Text
json = text "{}"

json_ne : json ≢ []
json_ne e = cc

written : write_frame json ≡ ok (0 ∷ 0 ∷ 0 ∷ 2 ∷ json)
unfolding write_frame put_uint32
written = refl

read_frame-write_frame_example : read_frame (0 ∷ 0 ∷ 0 ∷ 2 ∷ text "{}x") ≡ ok (json, text "x")
read_frame-write_frame_example =
    read_frame-write_frame json (0 ∷ 0 ∷ 0 ∷ 2 ∷ json) (text "x") json_ne written
