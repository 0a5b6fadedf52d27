-- ===== src/Speech/Reading.antt =====
-- batchkit_examples/speech_sdk/audio.py: which files pass the conversion, and what the stream reads.
use batch_processing_kit.Prelude.{
  ℕ, zero, suc, ◌+◌, ◌*◌, ◌≤◌, ◌<◌, ◌≡◌, refl, ap, true, false, List, [], ◌∷◌, none, some,
  if◌then◌else◌, leb, ◌==◌, nat_eq, string_eq, length, length-take, length-drop, take, drop, arith,
  inl, inr, ◌⊎◌,
}
use batch_processing_kit.Speech.Audio.{WavFileReader, frame_size, read_frames, read_into}
use Prim.Native.Nat.{◌/◌}
use native.Mathlib.Nat.{
  add-mul, div-mul-le_self, le-div_iff_mul-le, mul-le-mul_right, lt-div-mul-add,
}

length-take_le : {A : Type 0} (n : ℕ) (xs : List A) → length (take n xs) ≤ n
unfolding take
length-take_le zero xs = omega arith
length-take_le (suc n) [] = omega arith
length-take_le (suc n) (x ∷ xs) = omega (arith, length-take_le n xs)

-- Twice the whole samples of a size are more than the size.
two_samples : (size width : ℕ) → 0 < width → width ≤ size → size < 2 * (size / width * width)
two_samples size width h room =
    let some_sample : 1 ≤ size / width = (le-div_iff_mul-le h).1 (omega arith) in
    omega (arith, lt-div-mul-add {a = size} h, mul-le-mul_right width some_sample)

-- Of a file with one channel, a read fills at most the buffer and raises nothing. Of one with two
-- channels and enough frames left, a read into a buffer of at least one sample asks for more bytes
-- than the buffer has, and raises.
pub read_into-channels :
    (size : ℕ) (r : WavFileReader)
    → 0 < r.wave.sample_width
    → r.wave.sample_width ≤ size
    → (size / r.wave.sample_width + r.position) * frame_size r.wave ≤ length r.pcm
    → (r.wave.num_channels ≡ 1) ⊎ (r.wave.num_channels ≡ 2)
    → (read_into size r).0 ≡ (
        if r.wave.num_channels == 1
        then some (read_frames (size / r.wave.sample_width) r)
        else none)
unfolding read_into
read_into-channels size r some_width room enough (inl one) =
    let n = size / r.wave.sample_width in
    let frame : frame_size r.wave ≡ r.wave.sample_width = rw one (omega arith) in
    let few : n * r.wave.sample_width ≤ size = div-mul-le_self size r.wave.sample_width in
    let asked : length (read_frames n r) ≤ n * frame_size r.wave =
      length-take_le (n * frame_size r.wave) (drop (r.position * frame_size r.wave) r.pcm) in
    let fits : leb (length (read_frames n r)) size ≡ true =
      ground (arith, asked, ap (λ x. n * x) frame, few) in
    let mono : (r.wave.num_channels == 1) ≡ true = ground (arith, one) in rw (fits, mono) refl
read_into-channels size r some_width room enough (inr two) =
    let n = size / r.wave.sample_width in
    let frame : frame_size r.wave ≡ 2 * r.wave.sample_width = rw two (omega arith) in
    let many : size < 2 * (n * r.wave.sample_width) =
      two_samples size r.wave.sample_width some_width room in
    let there : n * frame_size r.wave ≤ length (drop (r.position * frame_size r.wave) r.pcm) =
      omega (
        arith,
        enough,
        add-mul n r.position (frame_size r.wave),
        length-drop (r.position * frame_size r.wave) r.pcm,
      ) in
    let asked : length (read_frames n r) ≡ n * frame_size r.wave =
      length-take (n * frame_size r.wave) (drop (r.position * frame_size r.wave) r.pcm) there in
    let doubled : n * frame_size r.wave ≡ 2 * (n * r.wave.sample_width) =
      omega (arith, ap (λ x. n * x) frame) in
    let over : leb (length (read_frames n r)) size ≡ false = ground (arith, asked, doubled, many) in
    let stereo : (r.wave.num_channels == 1) ≡ false = ground (arith, two) in rw (over, stereo) refl
