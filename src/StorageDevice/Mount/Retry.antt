-- ===== src/StorageDevice/Mount/Retry.antt =====
-- A second unmount behind a first one that failed.
use com_webos_service_pdm.Prelude.{Bool, true, false, ◌≡◌, refl}
use com_webos_service_pdm.Errors.{PdmDevStatus, success, umount_fail}
use com_webos_service_pdm.Os.{Os, Trace}
use com_webos_service_pdm.Fs.{Slot}
use com_webos_service_pdm.Partition.{set_drive_status}
use com_webos_service_pdm.StorageDevice.Mount.{umount_partition}
use com_webos_service_pdm.StorageDevice.Mount.Umount.{umount_partition_cases, after_umount}

abbrev IsRetry : Os → Bool → PdmDevStatus → Slot → Type 0
IsRetry os lazy status s = status ≡ umount_fail → umount_partition os lazy s ≡ (success, s)

-- Once an unmount was tried, however that went, the next one does nothing.
unmounted_again :
    (os : Os) (lazy done : Bool) (s : Slot) (t : Trace)
    → umount_partition os lazy (record { part = after_umount s.part done; trace = t })
      ≡ (success, record { part = after_umount s.part done; trace = t })
unfolding umount_partition set_drive_status
unmounted_again os lazy true s t = refl
unmounted_again os lazy false s t = refl

-- When an unmount fails because the system refuses it, the next unmount of the same partition,
-- lazy or not, reports success and makes no call at all, so the file system stays mounted.
pub umount_partition_twice :
    (os : Os) (lazy lazy' : Bool) (s : Slot)
    → let first = umount_partition os lazy s in
      first.0 ≡ umount_fail → umount_partition os lazy' first.1 ≡ (success, first.1)
umount_partition_twice os lazy lazy' s =
    umount_partition_cases (IsRetry os lazy') os lazy s (λ off e. absurd (cc e))
      (λ l on e. absurd (cc e)) (λ done on e. unmounted_again os lazy' done s _)
