-- ===== src/Speech/Audio.antt =====
-- batchkit_examples/speech_sdk/audio.py: the check and the conversion of an audio file, and the stream
-- that reads one. Durations are in whole time units.
use batch_processing_kit.Prelude.{
  ℕ, ◌+◌, ◌*◌, Bool, ◌&&◌, ◌||◌, List, [], ◌∷◌, ◌++◌, Option, none, some, String, if◌then◌else◌,
  leb, ◌==◌, nat_eq, string_eq, length, take, drop,
}
use batch_processing_kit.Prelude.Text.{codes, codes_eq}
use batch_processing_kit.Prelude.Dict.{contains}
use batch_processing_kit.Speech.{another, Try, returns, raises}
use Prim.Native.Nat.{◌/◌}

abbrev pub native_extensions : List String
native_extensions = ".wav" ∷ []

abbrev pub conversion_extensions : List String
conversion_extensions = ".mp3" ∷ ".flac" ∷ ".ogg" ∷ ".opus" ∷ ".alaw" ∷ ".mulaw" ∷ ".gsm" ∷ []

unfoldable pub get_parser_decoder : String → Option String
get_parser_decoder audio_format =
    if audio_format == ".flac"
    then some "flacparse ! flacdec"
    else if audio_format == ".mulaw"
    then some "wavparse ! mulawdec"
    else if audio_format == ".alaw"
    then some "wavparse ! alawdec"
    else if audio_format == ".gsm"
    then some "wavparse ! gsmdec"
    else if audio_format == ".opus"
    then some "oggdemux ! opusdec"
    else if audio_format == ".ogg"
    then some "oggdemux ! vorbisdec"
    else if audio_format == ".mp3"
    then some "mpegaudioparse ! mpg123audiodec"
    else none

-- What `wave.open` finds: the header, or the text of its error.
pub record Wave : Type 0 where
  pub frame_rate : ℕ
  pub num_channels : ℕ
  pub sample_width : ℕ
  pub uncompressed : Bool
  pub num_frames : ℕ

pub data WaveOpen : Type 0 where
  opened : Wave → WaveOpen
  wave_error : String → WaveOpen

abbrev pub invalid {ℓ} : {A : Type ℓ} → String → Try A
invalid s = raises (record { raised_class = another "InvalidAudioFormatError"; text = s })

-- 16-bit uncompressed mono or stereo, of 8 kHz or more.
abbrev pub is_supported : Wave → Bool
is_supported w =
    leb 8000 w.frame_rate
    && (w.num_channels == 1 || w.num_channels == 2)
    && w.sample_width == 2
    && w.uncompressed

unfoldable pub check_audio_file : WaveOpen → Try ℕ
check_audio_file (wave_error e) = invalid "Invalid wave file"
check_audio_file (opened w) =
    if is_supported w
    then returns (w.num_frames * 10000000 / w.frame_rate)
    else invalid "Invalid wave file"

-- "OggS" at 0 and "OpusHead" at 28, of 36 bytes.
unfoldable pub is_opus : List ℕ → Bool
is_opus bites =
    leb 36 (length bites)
    && take 4 bites == codes "OggS"
    && take 8 (drop 28 bites) == codes "OpusHead"

-- The extension of a file named .wav that `wave` does not open. `none` is one that is not resolved.
unfoldable pub resolve_extension : String → List ℕ → Option String
resolve_extension e bites =
    if e == "unknown format: 7"
    then some ".mulaw"
    else if e == "unknown format: 6"
    then some ".alaw"
    else if e == "unknown format: 49"
    then some ".gsm"
    else if e == "file does not start with RIFF id"
    then (if is_opus bites then some ".opus" else none)
    else none

-- A file, by its lower-case extension, its header, its first 36 bytes, and the outcome of the
-- GStreamer pipeline for a format: the header of the file that it writes, if it ends without error.
pub record AudioFile : Type 0 where
  pub path : String
  pub extension : String
  pub header : WaveOpen
  pub first_bytes : List ℕ
  pub temporary : String
  pub pipeline : String → Option WaveOpen

-- `gstreamer_convert`: the header of what it wrote.
unfoldable pub gstreamer_convert : AudioFile → String → Try WaveOpen
gstreamer_convert a audio_format = elim (get_parser_decoder audio_format) [
  | none ↦ invalid "Invalid source audio format"
  | some decoder ↦ elim (a.pipeline decoder) [
    | none ↦ invalid "Unable to convert the file"
    | some w ↦ returns w
  ]
]

abbrev patched : AudioFile → WaveOpen → Option String
patched a (opened w) = some ".wav"
patched a (wave_error e) = resolve_extension e a.first_bytes

abbrev pub true_extension : AudioFile → Option String
true_extension a = if a.extension == ".wav" then patched a a.header else some a.extension

abbrev checked : String → Try WaveOpen → Try (String × ℕ)
checked path (raises e) = raises e
checked path (returns w) = elim (check_audio_file w) [
  | raises e ↦ raises e
  | returns d ↦ returns (path, d)
]

abbrev pub converted : AudioFile → String → Try (String × ℕ)
converted a ext =
    if contains ext conversion_extensions
    then checked a.temporary (gstreamer_convert a ext)
    else if ext == ".wav"
    then checked a.path (returns a.header)
    else invalid "Invalid audio format"

-- The file that is played, and its duration.
unfoldable pub convert_audio : AudioFile → Try (String × ℕ)
convert_audio a = elim (true_extension a) [
  | none ↦ invalid "not a wav and is unrecognized"
  | some ext ↦ converted a ext
]

unfoldable pub is_valid_audio_file : Bool → String → Bool
is_valid_audio_file is_file extension =
    is_file && contains extension (native_extensions ++ conversion_extensions)

-- WavFileReaderCallback: the bytes of the frames, and the number of the next frame.
pub record WavFileReader : Type 0 where
  pub wave : Wave
  pub pcm : List ℕ
  pub position : ℕ

-- `wave_position_from_offset`, by the offset in time units.
unfoldable pub wave_position_from_offset : Wave → ℕ → ℕ
wave_position_from_offset w offset = offset * w.frame_rate / 10000000

-- `__init__`: `none` is the error of an assertion or of a position behind the last frame.
unfoldable pub open_reader : Wave → List ℕ → ℕ → Option WavFileReader
open_reader w pcm offset =
    if w.uncompressed
    then (if leb (wave_position_from_offset w offset) w.num_frames
        then some (record { wave = w; pcm = pcm; position = wave_position_from_offset w offset })
        else none)
    else none

abbrev pub frame_size : Wave → ℕ
frame_size w = w.sample_width * w.num_channels

-- `readframes(n)`
abbrev pub read_frames : ℕ → WavFileReader → List ℕ
read_frames n r = take (n * frame_size r.wave) (drop (r.position * frame_size r.wave) r.pcm)

abbrev advanced : ℕ → WavFileReader → WavFileReader
advanced n r = record r { position = r.position + length (read_frames n r) / frame_size r.wave }

-- `read` into a buffer of `size` bytes. `none` is the ValueError of frames that do not fit.
unfoldable pub read_into : ℕ → WavFileReader → Option (List ℕ) × WavFileReader
read_into size r =
    let n = size / r.wave.sample_width in
    (if leb (length (read_frames n r)) size then some (read_frames n r) else none, advanced n r)
