-- ===== src/StorageDevice/Commands/Eject.antt =====
-- What eject does, and what it leaves of the partitions.
use com_webos_service_pdm.Prelude.{true, false, ◌≡◌, refl, All, Bool-cases, inl, inr, ◌⊎◌}
use com_webos_service_pdm.Errors.{PdmDevStatus, success, eject_fail, is_success}
use com_webos_service_pdm.Os.{Os}
use com_webos_service_pdm.StorageDevice.State.{Dev, err_ejected, on_partitions}
use com_webos_service_pdm.StorageDevice.Mount.{umount_all_partition}
use com_webos_service_pdm.StorageDevice.Mount.All.{umount_all_partition-success}
use com_webos_service_pdm.StorageDevice.Commands.{eject, ejected}

-- What an eject that reports `status` leaves.
pub record IsEjectOf (old : Dev) (status : PdmDevStatus) (new : Dev) : Type 0 where
  pub outcome :
      ((status ≡ success)
        × (new.error_reason ≡ err_ejected)
        × All (λ p. p.is_mounted ≡ false) new.partitions)
      ⊎ ((status ≡ eject_fail) × (new.error_reason ≡ old.error_reason))
  pub same_root : new.root_path ≡ old.root_path

-- Either eject reports success, the error reason says that the device is ejected and no partition
-- counts as mounted, or it reports a failed eject and the error reason is the old one. The root
-- path stays.
pub eject-IsEjectOf : (os : Os) (d : Dev) → IsEjectOf d (eject os d).0 (eject os d).1
unfolding eject ejected umount_all_partition on_partitions
eject-IsEjectOf os d = go (Bool-cases (is_success r.0))
  where
    r : PdmDevStatus × Dev
    r = umount_all_partition os false d

    go :
        (is_success r.0 ≡ true) ⊎ (is_success r.0 ≡ false)
        → IsEjectOf d (eject os d).0 (eject os d).1
    go (inl e) = rw e (record {
      outcome = inl (refl, refl, umount_all_partition-success os false d e);
      same_root = refl;
    })
    go (inr e) = rw e (record { outcome = inr (refl, refl); same_root = refl })
