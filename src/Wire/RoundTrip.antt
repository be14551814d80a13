-- ===== src/Wire/RoundTrip.antt =====
-- What is written as a frame is read back.
use tarion.Base.{
  ℕ, ◌/◌, ◌%◌, ◌^◌, ◌≤◌, ◌≡◌, refl, subst, ◌≢◌, inl, inr, false, ◌||◌, [], ◌∷◌, ◌++◌, arith, ltb,
  ◌==◌, Bool-cases, length, length-append, take-append, drop-append, ok,
}
use tarion.Text.{Text}
use tarion.Wire.{max_frame_size, put_uint32, uint32, write_frame, read_frame}

uint32-put_uint32 :
    (n : ℕ)
    → n ≤ max_frame_size
    → uint32 (n / 2 ^ 24 % 256) (n / 2 ^ 16 % 256) (n / 2 ^ 8 % 256) (n % 256) ≡ n
uint32-put_uint32 n h = omega (arith, h)

read_put :
    (json rest : Text)
    → json ≢ []
    → length json ≤ max_frame_size
    → read_frame (put_uint32 (length json) ++ (json ++ rest)) ≡ ok (json, rest)
unfolding read_frame put_uint32
read_put [] rest ne h = absurd (ne refl)
read_put (x ∷ json) rest ne h =
    let all = (x ∷ json) ++ rest in
    let not_short : ltb (length all) (length (x ∷ json)) ≡ false =
      ground (arith, length-append (x ∷ json) rest) in
    let in_range : (length (x ∷ json) == 0 || ltb max_frame_size (length (x ∷ json))) ≡ false =
      ground (arith, h) in
    rw
      (
        uint32-put_uint32 (length (x ∷ json)) h,
        in_range,
        not_short,
        take-append (x ∷ json) rest,
        drop-append (x ∷ json) rest,
      )
      refl

-- If a JSON text that is not empty is written as a frame without an error, then reading from a
-- stream that starts with that frame gives the text, and leaves the rest of the stream.
pub read_frame-write_frame :
    (json frame rest : Text)
    → json ≢ []
    → write_frame json ≡ ok frame
    → read_frame (frame ++ rest) ≡ ok (json, rest)
unfolding write_frame put_uint32
read_frame-write_frame json frame rest ne h = elim (Bool-cases (ltb max_frame_size (length json))) [
  | inl a ↦ absurd (ground (arith, rw a at h))
  | inr a ↦
      let same : put_uint32 (length json) ++ json ≡ frame = ground (arith, rw a at h) in
      subst (λ f. read_frame (f ++ rest) ≡ ok (json, rest)) same
        (read_put json rest ne (ground (arith, a)))
]
