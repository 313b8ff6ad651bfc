-- ===== src/StorageDevice/Attach.antt =====
-- Attaching partitions: setPartitionInfo with its file system checks in threads, the notification
-- when they have ended, and the timeout that runs meanwhile.
pub mod Threads
use com_webos_service_pdm.Prelude.{
  ℕ, ◌==◌, String, Bool, true, false, not, ◌&&◌, ◌||◌, List, [], ◌∷◌, ◌++◌, Option, none, some, ℤ,
  pos, negsuc, ◌+ℤ◌, ◌==ℤ◌, length, any, str_eq, if◌then◌else◌, pure, ◌>>=◌, ◌>>◌,
}
use com_webos_service_pdm.Errors.{status_code, fsck_timeout, error}
use com_webos_service_pdm.Os.{
  Os, Call, EventType, add, fsck_timed_out, connecting, unsupported_fs_format_needed, Target,
  no_device, this_device, Io, notify,
}
use com_webos_service_pdm.DeviceClass.{Props, get_dev_name}
use com_webos_service_pdm.Partition
use com_webos_service_pdm.Partition.{DiskPartitionInfo, new_partition}
use com_webos_service_pdm.Fs.{Slot, check_file_system}
use com_webos_service_pdm.StorageDevice.State.{
  StorageDevice, Dev, OnDev, update, get_dev, io_dev, err_need_fsck, err_nothing, err_unsupport_fs,
  find_partition, on_partition,
}
use com_webos_service_pdm.StorageDevice.Mount.{mount_all_partition, fsck_partition}

source_remove : ℕ → Io (Unit {0})
source_remove id t = (tt, Call.source_remove id ∷ t)

unfoldable pub cancel_connecting_timeout : OnDev (Unit {0})
unfolding source_remove
cancel_connecting_timeout d =
    let cancel = (do
      io_dev (source_remove d.timeout_id)
      update λ e. record e { timeout_id = 0 }) in
    if d.timeout_id == 0 then (tt, d) else cancel d

-- notifyStorageConnecting, when the timeout fires.
unfoldable pub notify_storage_connecting : OnDev Bool
notify_storage_connecting = do
  update λ d. record d { timeout_id = 0 }
  io_dev (notify connecting no_device)
  pure false

abbrev pub is_timed_out : DiskPartitionInfo → Bool
is_timed_out p = p.fsck_status == status_code fsck_timeout

abbrev pub is_mounted : DiskPartitionInfo → Bool
is_mounted p = p.is_mounted

abbrev pub is_supported : DiskPartitionInfo → Bool
is_supported p = p.is_supported_fs

notify_timed_out : OnDev (Unit {0})
notify_timed_out = do
  update λ d. record d { error_reason = err_need_fsck }
  io_dev (notify fsck_timed_out this_device)
  io_dev (notify add this_device)
  update λ d. record d { is_dev_add_event_notified = true }

notify_mounted : OnDev (Unit {0})
notify_mounted = do
  update λ d. record d { error_reason = err_nothing; device_is_mounted = true }
  io_dev (notify add this_device)
  update λ d. record d { is_dev_add_event_notified = true }

unfoldable pub storage_device_notification : OnDev (Unit {0})
unfolding notify_timed_out notify_mounted
storage_device_notification d =
    if any is_timed_out d.partitions
    then notify_timed_out d
    else if any is_mounted d.partitions
    then notify_mounted d
    else (tt, d)

-- The two operations of storageDeviceFsckNotification on the atomic count: it is lowered, and then
-- read again.
unfoldable pub lower_count : OnDev (Unit {0})
lower_count d = (
  tt,
  record d { device = record d.device { fsck_thread_count = d.fsck_thread_count +ℤ negsuc 0 } },
)

unfoldable pub notify_if_last : OnDev (Unit {0})
unfolding storage_device_notification cancel_connecting_timeout
notify_if_last d =
    let finish = (do storage_device_notification; cancel_connecting_timeout) in
    if d.fsck_thread_count ==ℤ pos 0 then finish d else (tt, d)

-- Both, where no other thread comes between them; Threads puts them in any order.
unfoldable pub storage_device_fsck_notification : OnDev (Unit {0})
unfolding lower_count notify_if_last
storage_device_fsck_notification = do lower_count; notify_if_last

-- The loop that starts a thread for each supported partition: the thread is created, and then the
-- count is raised.
unfoldable pub create_thread : String → OnDev (Unit {0})
create_thread name d = (
  tt,
  record {
    device = record d.device { fsck_threads = d.fsck_threads ++ name ∷ [] };
    trace = Call.fsck_thread name ∷ d.trace;
  },
)

unfoldable pub raise_count : OnDev (Unit {0})
raise_count d =
    (tt, record d { device = record d.device { fsck_thread_count = d.fsck_thread_count +ℤ pos 1 } })

-- The loop, where no thread ends meanwhile.
pub start_fsck : List DiskPartitionInfo → OnDev (Unit {0})
unfolding create_thread raise_count
start_fsck [] d = (tt, d)
start_fsck (p ∷ ps) d =
    let started = (raise_count (create_thread p.drive_name d).1).1 in
    start_fsck ps (if p.is_supported_fs then started else d)

module _ (os : Os) where
  add_connecting_timeout : OnDev (Unit {0})
  add_connecting_timeout d =
      let id = os.timeout_add d.trace in
      (
        tt,
        record {
          device = record d.device { timeout_id = id };
          trace = Call.timeout_add id ∷ d.trace;
        },
      )

  check_partitions : OnDev (Unit {0})
  unfolding start_fsck cancel_connecting_timeout add_connecting_timeout
  check_partitions d =
      let go = (do start_fsck d.partitions; cancel_connecting_timeout; add_connecting_timeout) in
      go d

  mount_read_only : OnDev (Unit {0})
  mount_read_only = do result ← mount_all_partition os; storage_device_notification

  refuse_unsupported : OnDev (Unit {0})
  refuse_unsupported = do
    update λ d. record d { error_reason = err_unsupport_fs; has_unsupported_fs = true }
    io_dev (notify add this_device)
    update λ d. record d { is_dev_add_event_notified = true }
    io_dev (notify unsupported_fs_format_needed this_device)

  -- What follows once all partitions of the device are there.
  unfoldable pub all_attached : OnDev (Unit {0})
  unfolding mount_read_only check_partitions refuse_unsupported
  all_attached d =
      if any is_supported d.partitions
      then (if d.is_read_only then mount_read_only d else check_partitions d)
      else refuse_unsupported d

  unfoldable pub make_partition : Props → StorageDevice → DiskPartitionInfo
  make_partition dev d =
      Partition.set_partition_info dev d.root_path (record (new_partition os.root_path) {
        storage_type = d.storage_type;
        product_name = d.product_name;
      })

  abbrev pub push_partition : DiskPartitionInfo → OnDev (Unit {0})
  push_partition p d =
      let (u, s) = check_file_system os (record { part = p; trace = d.trace }) in
      (
        tt,
        record {
          device = record d.device { partitions = d.partitions ++ s.part ∷ [] };
          trace = s.trace;
        },
      )

  abbrev pub is_complete : StorageDevice → Bool
  is_complete d = d.partition_count ==ℤ pos 0 || pos (length d.partitions) ==ℤ d.partition_count

  attach_partition : Props → OnDev (Unit {0})
  unfolding all_attached make_partition
  attach_partition dev d =
      let (u, d') = push_partition (make_partition dev d.device) d in
      if is_complete d'.device then all_attached d' else (tt, d')

  -- StorageDevice::setPartitionInfo
  unfoldable pub set_partition_info : Props → OnDev (Unit {0})
  unfolding attach_partition
  set_partition_info dev d = elim (find_partition (get_dev_name dev) d.partitions) [
    | some p ↦ (tt, d)
    | none ↦ attach_partition dev d
  ]

  remove_name : String → List String → List String
  remove_name name [] = []
  remove_name name (n ∷ ns) =
      let rest = n ∷ remove_name name ns in if str_eq n name then ns else rest

  -- fsckOnDeviceAddThread on the partition of this name, to its end.
  unfoldable pub fsck_on_device_add_thread : String → OnDev (Unit {0})
  unfolding remove_name
  fsck_on_device_add_thread name = do
    status ← on_partition error name (fsck_partition os "auto")
    storage_device_fsck_notification
    update λ d. record d { fsck_threads = remove_name name d.fsck_threads }
