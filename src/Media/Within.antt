-- ===== src/Media/Within.antt =====
-- The directories that a trace makes and removes, against the common root path of the devices.
use com_webos_service_pdm.Prelude.{
  String, Bool, true, ◌≡◌, List, All, starts_with, is_empty, if_cases,
}
use com_webos_service_pdm.Os.{Os, Call, Trace, run, create_dir, remove_dir_recursive}
use com_webos_service_pdm.Media.{fusermount}

abbrev pub IsUnder : String → Call → Type 0
IsUnder root (Call.create_directories dir) = starts_with dir root ≡ true
IsUnder root (Call.remove_all dir) = starts_with dir root ≡ true
IsUnder root _ = Unit

-- Each directory that is made or removed has a path that begins with the root path.
abbrev pub IsWithin : String → Trace → Type 0
IsWithin root = All (IsUnder root)

module _ (os : Os) (root : String) (t : Trace) (w : IsWithin root t) where
  pub remove_dir_recursive-IsWithin :
      (dir : String) → starts_with dir root ≡ true → IsWithin root (remove_dir_recursive os dir t).1
  unfolding remove_dir_recursive
  remove_dir_recursive-IsWithin dir e =
      if_cases (λ (r : Bool × Trace). IsWithin root r.1) (is_empty dir) (λ _. w) (λ _. (e, w))

  pub create_dir-IsWithin :
      (dir : String) → starts_with dir root ≡ true → IsWithin root (create_dir os dir t).1
  unfolding create_dir
  create_dir-IsWithin dir e =
      if_cases (λ (r : Bool × Trace). IsWithin root r.1) (is_empty dir) (λ _. w)
        (λ _.
          if_cases (λ (r : Bool × Trace). IsWithin root r.1) (os.is_directory t dir) (λ _. w)
            (λ _. (e, w)))

  pub run-IsWithin : (argv : List String) → IsWithin root (run os argv t).1
  unfolding run
  run-IsWithin argv = (tt, w)

  pub fusermount-IsWithin : (name : String) → IsWithin root (fusermount os name t).1
  unfolding fusermount
  fusermount-IsWithin name = run-IsWithin _
