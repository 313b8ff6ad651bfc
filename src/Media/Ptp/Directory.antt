-- ===== src/Media/Ptp/Directory.antt =====
-- Whether a camera's directory shows its content: checkDirectory of devices/ptp/PTPDevice.cpp.
use com_webos_service_pdm.Prelude.{
  String, Bool, true, false, not, ◌&&◌, List, [], ◌∷◌, Option, none, some, append, str_eq, is_empty,
  if◌then◌else◌,
}
use com_webos_service_pdm.Os.{Os, Trace}

abbrev is_entry : String → Bool
is_entry name = not (str_eq name ".") && not (str_eq name "..")

-- The first entry of a directory but for itself and its parent.
first_entry : List String → Option String
first_entry [] = none
first_entry (n ∷ ns) = if is_entry n then some n else first_entry ns

abbrev entry_in : Option (List String) → Option String
entry_in none = none
entry_in (some ns) = first_entry ns

abbrev is_some : Option String → Bool
is_some none = false
is_some (some n) = true

module _ (os : Os) where
  unfoldable pub check_empty : Trace → String → Bool
  unfolding first_entry
  check_empty t path = not (is_empty path) && is_some (entry_in (os.read_dir t path))

  check_entry : Trace → String → Option String → Bool
  check_entry t path none = false
  check_entry t path (some name) = check_empty t (append path (append "/" name))

  unfoldable pub check_directory : Trace → String → Bool
  unfolding first_entry check_entry
  check_directory t path = not (is_empty path) && check_entry t path (entry_in (os.read_dir t path))
