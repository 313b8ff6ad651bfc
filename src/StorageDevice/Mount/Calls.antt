-- ===== src/StorageDevice/Mount/Calls.antt =====
-- Which calls an unmount makes.
use com_webos_service_pdm.Prelude.{
  ℕ, String, suc, Bool, true, false, ◌≡◌, refl, ◌∙◌, List, [], ◌∷◌, if◌then◌else◌,
}
use com_webos_service_pdm.Errors.{PdmDevStatus, success, is_success, umount_all_fail}
use com_webos_service_pdm.Os.{
  Os, Call, EventType, Target, Trace, shell, command, remove_all, umount2, callback,
}
use com_webos_service_pdm.Partition.{DiskPartitionInfo}
use com_webos_service_pdm.Fs.{Slot}
use com_webos_service_pdm.StorageDevice.State.{Dev, sweep, on_partitions}
use com_webos_service_pdm.StorageDevice.Mount.{
  umount_partition, umount_one, umount_all_partition, delete_partition_data,
}
use com_webos_service_pdm.StorageDevice.Mount.Umount.{umount_partition_cases, asked_lsof}

-- The calls that pass a test.
unfoldable pub count : (Call → Bool) → Trace → ℕ
count test [] = 0
count test (c ∷ t) = if test c then suc (count test t) else count test t

abbrev pub is_command : Call → Bool
is_command (command argv) = true
is_command _ = false

abbrev pub is_removal : Call → Bool
is_removal (remove_all dir) = true
is_removal _ = false

-- The calls that an unmount can make all fail the test.
pub record IsAside (test : Call → Bool) : Type 0 where
  pub no_shell : (cmd : String) → test (shell cmd) ≡ false
  pub no_umount : (dir : String) (flags : ℕ) → test (umount2 dir flags) ≡ false
  pub no_callback : (event : EventType) (device : Target) → test (callback event device) ≡ false

pub is_command-IsAside : IsAside is_command
is_command-IsAside = record {
  no_shell = λ c. refl;
  no_umount = λ d f. refl;
  no_callback = λ e d. refl;
}

pub is_removal-IsAside : IsAside is_removal
is_removal-IsAside = record {
  no_shell = λ c. refl;
  no_umount = λ d f. refl;
  no_callback = λ e d. refl;
}

module _ (test : Call → Bool) (aside : IsAside test) where
  pub umount_partition-count :
      (os : Os) (lazy : Bool) (s : Slot)
      → count test (umount_partition os lazy s).1.trace ≡ count test s.trace
  unfolding count
  umount_partition-count os lazy s =
      umount_partition_cases (λ status s'. count test s'.trace ≡ count test s.trace) os lazy s
        (λ _. refl) (λ _ _. rw (aside.no_shell _) refl)
        (λ done _.
          rw (aside.no_callback _ _, aside.no_umount _ _, aside.no_callback _ _) (asked lazy))
    where
      asked :
          (b : Bool)
          → count test (if b then s.trace else asked_lsof s.part s.trace) ≡ count test s.trace
      asked true = refl
      asked false = rw (aside.no_shell _) refl

  sweep-count :
      (os : Os) (lazy : Bool) (a : PdmDevStatus) (ps : List DiskPartitionInfo) (t : Trace)
      → count test (sweep (umount_one os lazy) a ps t).2 ≡ count test t
  unfolding sweep
  sweep-count os lazy a [] t = refl
  sweep-count os lazy a (p ∷ ps) t =
      let s : Slot = record { part = p; trace = t } in
      let r = umount_partition os lazy s in
      let a' = if is_success r.0 then a else umount_all_fail in
      sweep-count os lazy a' ps r.1.trace ∙ umount_partition-count os lazy s

  pub umount_all_partition-count :
      (os : Os) (lazy : Bool) (d : Dev)
      → count test (umount_all_partition os lazy d).1.trace ≡ count test d.trace
  unfolding umount_all_partition on_partitions
  umount_all_partition-count os lazy d = sweep-count os lazy success d.partitions d.trace

  pub delete_partition_data-count :
      (os : Os) (d : Dev) → count test (delete_partition_data os d).1.trace ≡ count test d.trace
  unfolding delete_partition_data
  delete_partition_data-count os d = umount_all_partition-count os true d
