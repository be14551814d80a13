-- ===== src/Wire.antt =====
-- internal/wire/wire.go: frames on a stream. A message is its JSON; a stream is the bytes that can be
-- read from it until it ends.
pub mod RoundTrip
pub mod Examples
use tarion.Base.{
  ℕ, ◌+◌, ◌*◌, ◌/◌, ◌%◌, ◌^◌, ◌||◌, [], ◌∷◌, ◌++◌, ltb, ◌==◌, if◌then◌else◌, length, take, drop,
  Result, ok, err,
}
use tarion.Text.{Text}

abbrev pub max_frame_size : ℕ
max_frame_size = 64 * 1024

pub data FrameError : Type 0 where
  too_large no_header out_of_range cut_off : FrameError

-- `binary.BigEndian.PutUint32` of a number that is taken to 32 bits.
unfoldable pub put_uint32 : ℕ → Text
put_uint32 n = n / 2 ^ 24 % 256 ∷ n / 2 ^ 16 % 256 ∷ n / 2 ^ 8 % 256 ∷ n % 256 ∷ []

-- `binary.BigEndian.Uint32`
abbrev pub uint32 : ℕ → ℕ → ℕ → ℕ → ℕ
uint32 a b c d = ((a * 256 + b) * 256 + c) * 256 + d

-- What WriteFrame writes, in one call.
unfoldable pub write_frame : Text → Result FrameError Text
write_frame json =
    if ltb max_frame_size (length json)
    then err too_large
    else ok (put_uint32 (length json) ++ json)

-- The JSON that ReadFrame reads, and the rest of the stream.
unfoldable pub read_frame : Text → Result FrameError (Text × Text)
read_frame (a ∷ b ∷ c ∷ d ∷ s) =
    let n = uint32 a b c d in
    if n == 0 || ltb max_frame_size n
    then err out_of_range
    else if ltb (length s) n
    then err cut_off
    else ok (take n s, drop n s)
read_frame _ = err no_header
