-- ===== src/StorageDevice/Mount.antt =====
-- Mounting, unmounting and checking the partitions of a device.
pub mod Umount
pub mod All
pub mod Retry
pub mod Mounting
pub mod Calls
use com_webos_service_pdm.Prelude.{
  String, Bool, true, false, not, ◌&&◌, if◌then◌else◌, pure, branch, ◌>>=◌, ◌>>◌, List, [], ◌∷◌, ℤ,
  pos, any,
}
use com_webos_service_pdm.Errors.{
  PdmDevStatus, success, umount_fail, umount_all_fail, mount_all_fail, busy, is_success,
}
use com_webos_service_pdm.Os.{
  Os, EventType, umount, mount, fsck_started, fsck_finished, Target, no_device, notify,
}
use com_webos_service_pdm.Partition.{
  DiskPartitionInfo, set_drive_status, is_mounting, mount_ok, mount_not_ok, is_unmounting,
  umount_ok, umount_not_ok, partition_lock, partition_unlock,
}
use com_webos_service_pdm.Fs
use com_webos_service_pdm.Fs.{On, Slot, io, modify, get_part}
use com_webos_service_pdm.StorageDevice.State.{
  StorageDevice, Dev, OnDev, update, on_partitions, get_dev,
}

module _ (os : Os) where
  abbrev pub umounted : Bool → On PdmDevStatus
  umounted true = do
    modify (set_drive_status umount_ok)
    io (notify umount no_device)
    modify partition_unlock
    pure success
  umounted false = do
    modify (set_drive_status umount_not_ok)
    io (notify mount no_device)
    modify partition_unlock
    pure umount_fail

  unfoldable pub umount_now : Bool → On PdmDevStatus
  umount_now lazy = do
    modify partition_lock
    modify (set_drive_status is_unmounting)
    io (notify umount no_device)
    done ← Fs.umount os lazy
    umounted done

  unfoldable pub umount_idle : Bool → On PdmDevStatus
  umount_idle lazy = do
    busy_now ← Fs.is_drive_busy os
    branch busy_now (pure busy) (umount_now lazy)

  -- StorageDevice::umountPartition
  unfoldable pub umount_partition : Bool → On PdmDevStatus
  umount_partition lazy s =
      if not s.part.is_mounted
      then (success, s)
      else if lazy
      then umount_now lazy s
      else umount_idle lazy s

  abbrev mounted : Bool → On PdmDevStatus
  mounted true = do modify (set_drive_status mount_ok); io (notify mount no_device); pure success
  mounted false = do
    modify (set_drive_status mount_not_ok)
    io (notify umount no_device)
    pure umount_fail

  -- StorageDevice::mountPartition
  unfoldable pub mount_partition : Bool → On PdmDevStatus
  mount_partition read_only = do
    modify (set_drive_status is_mounting)
    io (notify mount no_device)
    done ← Fs.mount_partition os read_only
    mounted done

  abbrev mount_checked : PdmDevStatus → On PdmDevStatus
  mount_checked status s = if is_success status then mount_partition false s else (status, s)

  -- StorageDevice::fsckPartition
  unfoldable pub fsck_partition : String → On PdmDevStatus
  unfolding mount_partition
  fsck_partition mode = do
    io (notify fsck_started no_device)
    status ← Fs.fsck os mode
    status' ← mount_checked status
    io (notify fsck_finished no_device)
    pure status'

  abbrev umount_one : Bool → PdmDevStatus → On PdmDevStatus
  umount_one lazy result = do
    status ← umount_partition lazy
    pure (if is_success status then result else umount_all_fail)

  unfoldable pub umount_all_partition : Bool → OnDev PdmDevStatus
  umount_all_partition lazy = on_partitions (umount_one lazy) success

  abbrev mount_one : Bool → PdmDevStatus → On PdmDevStatus
  mount_one read_only result s =
      if s.part.is_supported_fs
      then (let (status, s') = mount_partition read_only s in
          (if is_success status then result else mount_all_fail, s'))
      else (result, s)

  unfoldable pub mount_all_partition : OnDev PdmDevStatus
  mount_all_partition d = on_partitions (mount_one d.is_read_only) success d

  unfoldable pub delete_partition_data : OnDev (Unit {0})
  unfolding umount_all_partition
  delete_partition_data = do
    result ← umount_all_partition true
    update λ d. record d { partitions = []; partition_count = pos 0 }
