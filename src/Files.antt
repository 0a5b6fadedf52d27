-- ===== src/Files.antt =====
-- batchkit/utils.py and batchkit/handlers.py: the files that become work items, and how result files
-- are written and moved.
pub mod Inputs
pub mod Disk
pub mod Atomic
pub mod Checksum
use batch_processing_kit.Prelude.{
  ℕ, ◌≡◌, Bool, true, false, not, ◌&&◌, List, [], ◌∷◌, ◌++◌, Option, none, some, String,
  if◌then◌else◌, ◌==◌, string_eq,
}
use batch_processing_kit.Prelude.Text.{◌<>◌}

-- The functions of `os.path` on texts, which depend on the platform and the working directory.
pub record OsPath : Type 0 where
  pub basename : String → String
  pub splitext : String → String × String
  pub join : String → String → String
  pub abspath : String → String

-- `text[1:]`
abbrev pub drop_first : String → String
drop_first String.[] = ""
drop_first (String.◌∷◌ c s) = s

abbrev json_name : String × String → String
json_name (base, ext) = base <> ("_" <> (drop_first ext <> ".json"))

unfoldable pub get_input_output_file_names : OsPath → String → String → String × String
get_input_output_file_names p audio_file output_folder =
    (p.basename audio_file, p.join output_folder (json_name (p.splitext (p.basename audio_file))))
