-- ===== src/StorageDevice/Power.antt =====
-- Suspend and resume in devices/storage/StorageDevice.cpp.
pub mod Suspend
use com_webos_service_pdm.Prelude.{
  ℕ, ◌==◌, String, Bool, true, false, not, ◌&&◌, List, [], ◌∷◌, Option, none, some, ℤ, pos, any,
  str_eq, is_empty, if◌then◌else◌, pure, branch, ◌>>=◌, ◌>>◌,
}
use com_webos_service_pdm.Errors.{
  PdmDevStatus, success, umount_fail, eject_fail, format_fail, fsck_fail, fsck_timeout,
  partition_not_found, error, is_success, status_code,
}
use com_webos_service_pdm.Os.{
  Os, Trace, EventType, format_started, format_success, Target, no_device, this_device, partition,
  remove_before_mount, remove_unsupported_fs, notify, remove_dir_recursive,
}
use com_webos_service_pdm.Os.{EventType}
use com_webos_service_pdm.Partition.{
  DiskPartitionInfo, StorageInterfaceTypes, usb_hdd, partition_lock, partition_unlock,
}
use com_webos_service_pdm.Fs
use com_webos_service_pdm.Fs.{Slot, On, SpaceInfo, io, modify, get_part, set_space}
use com_webos_service_pdm.StorageDevice.State.{
  StorageDevice, Dev, OnDev, update, get_dev, io_dev, find_partition, on_partition, on_partitions,
  err_nothing, err_ejected,
}
use com_webos_service_pdm.StorageDevice.Mount.{
  umount_partition, mount_partition, fsck_partition, umount_all_partition, mount_all_partition,
  delete_partition_data,
}
use com_webos_service_pdm.StorageDevice.Attach.{is_mounted, fsck_on_device_add_thread}

module _ (os : Os) where
  abbrev set_power : Bool → Unit {0} → On (Unit {0})
  set_power on u = modify λ p. record p { power_status = on }

  unfoldable pub suspend_request : OnDev (Unit {0})
  suspend_request = on_partitions (set_power false) tt

  -- The loop of suspendUmountAllPartitions; a busy partition ends it.
  unfoldable pub suspend_umount :
      Bool → List DiskPartitionInfo → Trace → Bool × List DiskPartitionInfo × Trace
  suspend_umount lazy [] t = (true, [], t)
  suspend_umount lazy (p ∷ ps) t =
      let (busy_now, s) =
        if lazy
        then (false, record { part = p; trace = t })
        else Fs.is_drive_busy os (record { part = p; trace = t }) in
      let (done, s') = Fs.umount os lazy s in
      let (all_done, ps', t') = suspend_umount lazy ps s'.trace in
      if busy_now then (false, s.part ∷ ps, s.trace) else (done && all_done, s'.part ∷ ps', t')

  unfoldable pub suspend_umount_all_partitions : Bool → OnDev Bool
  unfolding suspend_umount
  suspend_umount_all_partitions lazy d =
      let (done, ps, t) = suspend_umount lazy d.partitions d.trace in
      (done, record d { device = record d.device { partitions = ps }; trace = t })

  abbrev is_hdd : StorageInterfaceTypes → Bool
  is_hdd usb_hdd = true
  is_hdd _ = false

  resumed : OnDev (Unit {0})
  resumed = do
    result ← mount_all_partition os
    update λ d.
        if any is_mounted d.partitions
        then record d { error_reason = err_nothing; device_is_mounted = true }
        else d

  unfoldable pub resume_request : OnDev (Unit {0})
  unfolding resumed
  resume_request = do
    on_partitions (set_power true) tt
    update λ d. record d { is_power_on_connect = true }
    d ← get_dev
    branch (is_hdd d.storage_type && not (str_eq d.error_reason err_ejected)) (pure tt) resumed
