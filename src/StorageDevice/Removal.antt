-- ===== src/StorageDevice/Removal.antt =====
-- onDeviceRemove of devices/storage/StorageDevice.cpp with what it calls.
use com_webos_service_pdm.Prelude.{
  String, not, List, [], ◌∷◌, pos, is_empty, if◌then◌else◌, ◌>>=◌, ◌>>◌,
}
use com_webos_service_pdm.Os.{
  Os, this_device, remove_before_mount, remove_unsupported_fs, notify, remove_dir_recursive,
}
use com_webos_service_pdm.StorageDevice.State.{OnDev, update, get_dev, io_dev}
use com_webos_service_pdm.StorageDevice.Mount.{delete_partition_data}
use com_webos_service_pdm.StorageDevice.Attach.{fsck_on_device_add_thread}

module _ (os : Os) where
  join_threads : List String → OnDev (Unit {0})
  join_threads [] d = (tt, d)
  join_threads (n ∷ ns) d = let (u, d') = fsck_on_device_add_thread os n d in join_threads ns d'

  check_removal_notifications : OnDev (Unit {0})
  check_removal_notifications d =
      if not d.is_dev_add_event_notified
      then io_dev (notify remove_before_mount this_device) d
      else if d.has_unsupported_fs
      then io_dev (notify remove_unsupported_fs this_device) d
      else (tt, d)

  remove_root_dir : OnDev (Unit {0})
  remove_root_dir d =
      let clear = (do
        removed ← io_dev (remove_dir_recursive os d.root_path)
        update λ e. record e { root_path = "" }) in
      if is_empty d.root_path then (tt, d) else clear d

  -- The threads are joined, so what they still do comes first.
  unfoldable pub on_device_remove : OnDev (Unit {0})
  unfolding join_threads check_removal_notifications remove_root_dir
  on_device_remove = do
    d ← get_dev
    join_threads d.fsck_threads
    update λ e. record e { fsck_threads = []; fsck_thread_count = pos 0 }
    delete_partition_data os
    remove_root_dir
    check_removal_notifications
