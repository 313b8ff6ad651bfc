-- ===== src/StorageDevice/Commands/Format.antt =====
-- The format and the check of one partition, and which calls they make.
use com_webos_service_pdm.Prelude.{
  String, true, false, ◌≡◌, refl, inl, inr, ◌⊎◌, if_cases, if◌then◌else◌,
}
use com_webos_service_pdm.Errors.{
  PdmDevStatus, success, umount_fail, format_fail, fsck_fail, is_success,
}
use com_webos_service_pdm.Os.{Os}
use com_webos_service_pdm.Fs.{Slot}
use com_webos_service_pdm.StorageDevice.Mount.{umount_partition}
use com_webos_service_pdm.StorageDevice.Mount.Calls.{
  count, is_command, is_command-IsAside, umount_partition-count,
}
use com_webos_service_pdm.StorageDevice.Mount.All.{umount_partition-IsUmountOf, unmounted_of_done}
use com_webos_service_pdm.StorageDevice.Commands.{
  format_partition, format_umounted, umount_and_fsck, fsck_umounted,
}

-- What an operation that unmounts first reports, where `failed` is its own error.
pub record IsBehindUmount (os : Os) (failed : PdmDevStatus) (old : Slot) (status : PdmDevStatus)
    (new : Slot) : Type 0 where
  pub outcome :
      ((status ≡ umount_fail) × (count is_command new.trace ≡ count is_command old.trace))
      ⊎ (((status ≡ success) ⊎ (status ≡ failed))
          × ((umount_partition os false old).1.part.is_mounted ≡ false))

abbrev or_else : PdmDevStatus → PdmDevStatus → PdmDevStatus
or_else failed status = if is_success status then success else failed

behind_umount :
    (os : Os) (failed : PdmDevStatus) (s : Slot) (run : PdmDevStatus) (after : Slot)
    → is_success (umount_partition os false s).0 ≡ true
    → IsBehindUmount os failed s (or_else failed run) after
behind_umount os failed s run after ok = record {
  outcome = inr (
    if_cases (λ r. (r ≡ success) ⊎ (r ≡ failed)) (is_success run) (λ _. inl refl) (λ _. inr refl),
    unmounted_of_done os false s _ _ (umount_partition-IsUmountOf os false s) ok,
  );
}

refused_umount :
    (os : Os) (failed : PdmDevStatus) (s : Slot)
    → IsBehindUmount os failed s umount_fail (umount_partition os false s).1
refused_umount os failed s = record {
  outcome = inl (refl, umount_partition-count is_command is_command-IsAside os false s);
}

-- Either a format of a partition reports a failed unmount and runs no command, its own included, or
-- it reports success or a failed format, and the unmount before it left the partition not counting
-- as mounted.
pub format_partition-IsBehindUmount :
    (os : Os) (name fs label : String) (s : Slot)
    → let r = format_partition os name fs label s in IsBehindUmount os format_fail s r.0 r.1
unfolding format_partition format_umounted
format_partition-IsBehindUmount os name fs label s =
    if_cases (λ (r : PdmDevStatus × Slot). IsBehindUmount os format_fail s r.0 r.1)
      (is_success (umount_partition os false s).0) (λ ok. behind_umount os format_fail s _ _ ok)
      (λ _. refused_umount os format_fail s)

-- Either a check that is asked for reports a failed unmount and runs no command, its own included,
-- or it reports success or a failed check, and the unmount before it left the partition not
-- counting as mounted.
umount_and_fsck-IsBehindUmount :
    (os : Os) (s : Slot) → let r = umount_and_fsck os s in IsBehindUmount os fsck_fail s r.0 r.1
unfolding umount_and_fsck fsck_umounted
umount_and_fsck-IsBehindUmount os s =
    if_cases (λ (r : PdmDevStatus × Slot). IsBehindUmount os fsck_fail s r.0 r.1)
      (is_success (umount_partition os false s).0) (λ ok. behind_umount os fsck_fail s _ _ ok)
      (λ _. refused_umount os fsck_fail s)
