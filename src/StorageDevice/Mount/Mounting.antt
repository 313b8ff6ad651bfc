-- ===== src/StorageDevice/Mount/Mounting.antt =====
-- What mountPartition leaves of a partition.
use com_webos_service_pdm.Prelude.{Bool, true, false, ◌≡◌, Option, ◌⊎◌, if◌then◌else◌, str_eq}
use com_webos_service_pdm.Errors.{PdmDevStatus, success, umount_fail}
use com_webos_service_pdm.Os.{Os}
use com_webos_service_pdm.Partition.{
  DiskPartitionInfo, set_drive_status, mount_ok, mount_not_ok, is_mounting,
}
use com_webos_service_pdm.Fs
use com_webos_service_pdm.Fs.{SpaceInfo, put_space}

-- What a mount leaves of a partition.
pub record IsMountOf (old : DiskPartitionInfo) (status : PdmDevStatus) (new : DiskPartitionInfo)
    : Type 0 where
  pub same_name : new.drive_name ≡ old.drive_name
  pub same_fs : new.fs_type ≡ old.fs_type
  pub mounted_or_failed :
      ((status ≡ success) × (new.is_mounted ≡ true) × (new.drive_status ≡ mount_ok))
      ⊎ ((status ≡ umount_fail) × (new.is_mounted ≡ false) × (new.drive_status ≡ mount_not_ok))
  pub agrees : new.is_mounted ≡ str_eq new.drive_status mount_ok
  pub same_lock : new.locked ≡ old.locked

-- The partition behind a mount, for the sizes that it read.
abbrev marked : Bool → Option SpaceInfo → DiskPartitionInfo → DiskPartitionInfo
marked done space p =
    set_drive_status (if done then mount_ok else mount_not_ok)
      (put_space space (set_drive_status is_mounting p))
