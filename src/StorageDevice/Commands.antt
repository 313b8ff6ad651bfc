-- ===== src/StorageDevice/Commands.antt =====
-- The commands of devices/storage/StorageDevice.cpp: format, fsck, eject, labels, space and forced
-- checks.
pub mod Format
pub mod Eject
use com_webos_service_pdm.Prelude.{
  ℕ, ◌==◌, String, Bool, true, false, not, ◌&&◌, List, [], ◌∷◌, Option, none, some, ℤ, pos, any,
  str_eq, is_empty, if◌then◌else◌, pure, branch, ◌>>=◌, ◌>>◌,
}
use com_webos_service_pdm.Errors.{
  PdmDevStatus, success, umount_fail, eject_fail, format_fail, fsck_fail, fsck_timeout,
  partition_not_found, error, is_success, status_code,
}
use com_webos_service_pdm.Os.{
  Os, Trace, EventType, format_started, format_success, Target, no_device, this_device, partition,
  remove_before_mount, remove_unsupported_fs, notify, remove_dir_recursive,
}
use com_webos_service_pdm.Os.{EventType}
use com_webos_service_pdm.Partition.{
  DiskPartitionInfo, StorageInterfaceTypes, usb_hdd, partition_lock, partition_unlock,
}
use com_webos_service_pdm.Fs
use com_webos_service_pdm.Fs.Drive
use com_webos_service_pdm.Fs.{Slot, On, SpaceInfo, io, modify, get_part, set_space}
use com_webos_service_pdm.StorageDevice.State.{
  StorageDevice, Dev, OnDev, update, get_dev, io_dev, find_partition, on_partition, on_partitions,
  err_nothing, err_ejected,
}
use com_webos_service_pdm.StorageDevice.Mount.{
  umount_partition, mount_partition, fsck_partition, umount_all_partition, mount_all_partition,
  delete_partition_data,
}
use com_webos_service_pdm.StorageDevice.Attach.{is_mounted, fsck_on_device_add_thread}

module _ (os : Os) where
  -- The format itself, and the mount only behind a format that succeeded.
  format_and_mount : String → String → On PdmDevStatus
  format_and_mount fs label s =
      let (status, s') = Fs.format os fs label s in
      if is_success status then mount_partition os false s' else (status, s')

  format_umounted : String → String → String → On PdmDevStatus
  unfolding format_and_mount
  format_umounted name fs label = do
    io (notify format_started (partition name))
    status ← format_and_mount fs label
    io (
        notify (if is_success status then format_success else EventType.format_fail)
          (partition name))
    pure (if is_success status then success else format_fail)

  pub format_partition : String → String → String → On PdmDevStatus
  unfolding format_umounted
  format_partition name fs label s =
      let (status, s') = umount_partition os false s in
      if is_success status then format_umounted name fs label s' else (umount_fail, s')

  abbrev clear_error : PdmDevStatus → StorageDevice → StorageDevice
  clear_error status d = if is_success status then record d { error_reason = err_nothing } else d

  -- The commands that name a partition: it is looked up before anything is done.
  abbrev pub with_partition : String → OnDev PdmDevStatus → OnDev PdmDevStatus
  with_partition name m d = elim (find_partition name d.partitions) [
    | none ↦ (partition_not_found, d)
    | some p ↦ m d
  ]

  format_found : String → String → String → OnDev PdmDevStatus
  unfolding format_partition
  format_found name fs label d =
      let go = (do
        status ← on_partition format_fail name (format_partition name fs label)
        update (clear_error status)
        pure status) in
      if d.is_read_only then (format_fail, d) else go d

  unfoldable pub format_disk_start : String → String → String → OnDev PdmDevStatus
  unfolding format_found
  format_disk_start name fs label = with_partition name (format_found name fs label)

  fsck_umounted : On PdmDevStatus
  fsck_umounted = do
    status ← fsck_partition os "auto"
    pure (if is_success status then success else fsck_fail)

  pub umount_and_fsck : On PdmDevStatus
  unfolding fsck_umounted
  umount_and_fsck s =
      let (status, s') = umount_partition os false s in
      if is_success status then fsck_umounted s' else (umount_fail, s')

  fsck_found : String → OnDev PdmDevStatus
  unfolding umount_and_fsck
  fsck_found name d =
      if d.is_read_only then (fsck_fail, d) else on_partition fsck_fail name umount_and_fsck d

  unfoldable pub fsck : String → OnDev PdmDevStatus
  unfolding fsck_found
  fsck name = with_partition name (fsck_found name)

  unfoldable pub set_partition_volume_label : String → String → OnDev PdmDevStatus
  set_partition_volume_label name label =
      with_partition name (on_partition error name (Drive.set_volume_label os label))

  unfoldable pub is_writable : String → OnDev (PdmDevStatus × Bool)
  is_writable name d = elim (find_partition name d.partitions) [
    | none ↦ ((partition_not_found, false), d)
    | some p ↦ on_partition (error, false) name (Drive.is_writable os) d
  ]

  ejected : PdmDevStatus → OnDev PdmDevStatus
  ejected status d =
      let d' = record d {
        device = record d.device { error_reason = err_ejected; device_status = err_ejected };
      } in
      if is_success status then (success, d') else (eject_fail, d)

  unfoldable pub eject : OnDev PdmDevStatus
  unfolding ejected
  eject = do status ← umount_all_partition os false; ejected status

  abbrev keep_result : PdmDevStatus → PdmDevStatus × Slot → PdmDevStatus × Slot
  keep_result result (status, s) = (if is_success status then result else error, s)

  abbrev enforce_one : Bool → PdmDevStatus → On PdmDevStatus
  enforce_one need_fsck result s =
      if not need_fsck && not s.part.is_mounted
      then keep_result result (mount_partition os false s)
      else if s.part.fsck_status == status_code fsck_timeout
      then keep_result result (fsck_partition os "force" s)
      else (result, s)

  enforced : PdmDevStatus → StorageDevice → StorageDevice
  enforced status d =
      if is_success status
      then record d { error_reason = err_nothing; device_is_mounted = true }
      else d

  unfoldable pub enforce_fsck_and_mount : Bool → OnDev PdmDevStatus
  unfolding enforced
  enforce_fsck_and_mount need_fsck = do
    status ← on_partitions (enforce_one need_fsck) success
    update (enforced status)
    pure status

  -- The sizes are set under the lock, where statfs gives them.
  abbrev store_space : Option SpaceInfo → DiskPartitionInfo → DiskPartitionInfo
  store_space none p = p
  store_space (some i) p = partition_unlock (set_space i (partition_lock p))

  read_space : On (Unit {0})
  read_space = do
    p ← get_part
    space ← io (Fs.calculate_space_info os p.mount_name)
    modify (store_space space)

  space_of_mounted : Bool → On (Unit {0})
  unfolding read_space
  space_of_mounted direct_check s =
      if s.part.is_mounted && direct_check then read_space s else (tt, s)

  -- getSpaceInfo; the caller reads the partition that it returns, which is found again by name.
  unfoldable pub get_space_info : String → Bool → OnDev (Option DiskPartitionInfo)
  unfolding space_of_mounted
  get_space_info name direct_check d = elim (find_partition name d.partitions) [
    | none ↦ (none, d)
    | some p ↦
        let (u, d') = on_partition tt name (space_of_mounted direct_check) d in
        (find_partition name d'.partitions, d')
  ]
