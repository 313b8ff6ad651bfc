-- ===== src/Notifications.antt =====
-- framework/PdmNotificationManager.cpp: the observer that sends alerts to event-monitor, through a
-- piece of shared memory and a signal that says how much of it was written.
pub mod Memory
pub mod Alerts
use com_webos_service_pdm.Prelude.{
  ℕ, zero, suc, ◌-◌, ltb, ◌==◌, String, Bool, true, false, not, ◌&&◌, ◌||◌, List, [], ◌∷◌, ◌++◌,
  Option, none, some, ℤ, append, length, if◌then◌else◌,
}
use com_webos_service_pdm.Os.{
  EventType, connecting, max_count_reached, remove_before_mount, unsupported_fs_format_needed,
  fsck_timed_out, format_started, format_success, format_fail, remove_unsupported_fs,
  DeviceEventType, mtp_device,
}
use com_webos_service_pdm.Partition.{DiskPartitionInfo}
use com_webos_service_pdm.StorageDevice.State.{StorageDevice}
use com_webos_service_pdm.Devices.Numbers.{to_string}
use com_webos_service_pdm.Media.{Storage}

-- The alerts of inc/private/PdmNotificationManager.h.
pub data PdmEvent : Type 0 where
  connecting_event max_count_reached_event remove_before_mount_event : PdmEvent
  remove_before_mount_mtp_event unsupported_fs_format_needed_event : PdmEvent
  fsck_timed_out_event format_started_event format_success_event format_fail_event : PdmEvent
  remove_unsupported_fs_event : PdmEvent

-- The parameters of an alert, by name.
pub data Value : Type 0 where
  text : String → Value
  kind : DeviceEventType → Value

abbrev pub Parameters : Type 0
Parameters = List (String × Value)

-- The device of an update: a null pointer, or what the dynamic casts find, or any other device with
-- what it says of toasts.
pub data Observed : Type 0 where
  null : Observed
  storage_device : StorageDevice → Observed
  partition_info : DiskPartitionInfo → Observed
  mtp : Storage → Observed
  other_device : Bool → Observed

-- canDisplayToast: only network devices ever clear the flag.
abbrev pub can_display_toast : Observed → Bool
can_display_toast (other_device toast) = toast
can_display_toast _ = true

-- `stringify` gives the bytes of the JSON text, and `gigabytes` the text of a size in KiB as
-- gigabytes in two decimals; `event_monitor` is the process that is found, if one is.
pub record Environment : Type 0 where
  pub stringify : PdmEvent → Parameters → List ℕ
  pub gigabytes : ℕ → String
  pub event_monitor : ℕ

pub data Sent : Type 0 where
  signal : ℕ → ℕ → Sent

-- `sent` records the calls of sigqueue, newest first, whose failure is only logged; `memory` is none where no mapping was made.
pub record Manager : Type 0 where
  pub power_state : Bool
  pub memory : Option (List ℕ)
  pub sent : List Sent

abbrev pub shm_size : ℕ
shm_size = 256

-- The power events that HandlePluginEvent tells apart.
pub data PowerEvent : Type 0 where
  request_suspend prepare_resume resume_done other_power : PowerEvent

unfoldable pub handle_plugin_event : PowerEvent → Manager → Bool × Manager
handle_plugin_event request_suspend m = (false, record m { power_state = false })
handle_plugin_event prepare_resume m = (false, record m { power_state = false })
handle_plugin_event resume_done m = (false, record m { power_state = true })
handle_plugin_event other_power m = (false, m)

-- memcpy to the start of the memory: bytes beyond its end would be written too.
unfoldable pub memcpy : List ℕ → List ℕ → List ℕ
memcpy [] mem = mem
memcpy (b ∷ bs) [] = b ∷ memcpy bs []
memcpy (b ∷ bs) (c ∷ mem) = b ∷ memcpy bs mem

module _ (env : Environment) where
  write_payload : List ℕ → Option (List ℕ) → Manager → Manager
  write_payload bytes none m = m
  write_payload bytes (some mem) m =
      let written = record m { memory = some (memcpy bytes mem) } in
      if ltb shm_size (length bytes)
      then m
      else if env.event_monitor == 0
      then written
      else record written { sent = signal env.event_monitor (length bytes) ∷ m.sent }

  unfoldable pub send_alert_info : PdmEvent → Parameters → Manager → Manager
  unfolding write_payload
  send_alert_info event parameters m = write_payload (env.stringify event parameters) m.memory m

  -- "[" size "GB] " product
  unfoldable pub drive_info : DiskPartitionInfo → String
  drive_info p = append "[" (append (env.gigabytes p.drive_size) (append "GB] " p.product_name))

  abbrev device_num : StorageDevice → String × Value
  device_num d = ("deviceNum", text (to_string d.device_num))

  -- The alerts that carry the number of a storage device, and the toasts of a partition; another
  -- device or none is passed over.
  alert_storage : PdmEvent → Observed → Manager → Manager
  alert_storage event (storage_device d) m = send_alert_info event (device_num d ∷ []) m
  alert_storage event _ m = m

  toast_partition : PdmEvent → Observed → Manager → Manager
  toast_partition event (partition_info p) m =
      send_alert_info event (("driveInfo", text (drive_info p)) ∷ []) m
  toast_partition event _ m = m

  unfoldable pub show_connecting_toast : DeviceEventType → Manager → Manager
  show_connecting_toast k = send_alert_info connecting_event (("deviceType", kind k) ∷ [])

  unfoldable pub create_alert_for_max_usb_storage_devices : Manager → Manager
  create_alert_for_max_usb_storage_devices = send_alert_info max_count_reached_event []

  unfoldable pub unmount_mtp_device_alert : Observed → Manager → Manager
  unmount_mtp_device_alert (mtp d) m =
      send_alert_info remove_before_mount_mtp_event (("driveName", text d.drive_name) ∷ []) m
  unmount_mtp_device_alert _ m = m

  unfoldable pub create_alert_for_unmounted_device_removal : Observed → Manager → Manager
  unfolding alert_storage
  create_alert_for_unmounted_device_removal = alert_storage remove_before_mount_event

  unfoldable pub create_alert_for_unsupported_file_system : Observed → Manager → Manager
  unfolding alert_storage
  create_alert_for_unsupported_file_system = alert_storage unsupported_fs_format_needed_event

  unfoldable pub create_alert_for_fsck_timeout : Observed → Manager → Manager
  create_alert_for_fsck_timeout (storage_device d) m =
      send_alert_info fsck_timed_out_event (device_num d ∷ ("mountName", text d.device_name) ∷ []) m
  create_alert_for_fsck_timeout _ m = m

  unfoldable pub show_format_started_toast : Observed → Manager → Manager
  unfolding toast_partition
  show_format_started_toast = toast_partition format_started_event

  unfoldable pub show_format_success_toast : Observed → Manager → Manager
  unfolding toast_partition
  show_format_success_toast = toast_partition format_success_event

  unfoldable pub show_format_fail_toast : Observed → Manager → Manager
  unfolding toast_partition
  show_format_fail_toast = toast_partition format_fail_event

  unfoldable pub close_unsupported_fs_alert : Observed → Manager → Manager
  unfolding alert_storage
  close_unsupported_fs_alert = alert_storage remove_unsupported_fs_event

  abbrev is_mtp : DeviceEventType → Bool
  is_mtp mtp_device = true
  is_mtp _ = false

  removed_before_mount : DeviceEventType → Observed → Manager → Manager
  removed_before_mount k d m =
      if is_mtp k
      then unmount_mtp_device_alert d m
      else create_alert_for_unmounted_device_removal d m

  -- The switch of update.
  unfoldable pub show : DeviceEventType → EventType → Observed → Manager → Manager
  unfolding removed_before_mount
  show k connecting d = show_connecting_toast k
  show k max_count_reached d = create_alert_for_max_usb_storage_devices
  show k remove_before_mount d = removed_before_mount k d
  show k unsupported_fs_format_needed d = create_alert_for_unsupported_file_system d
  show k fsck_timed_out d = create_alert_for_fsck_timeout d
  show k format_started d = show_format_started_toast d
  show k format_success d = show_format_success_toast d
  show k format_fail d = show_format_fail_toast d
  show k remove_unsupported_fs d = close_unsupported_fs_alert d
  show k _ d = λ m. m

  unfoldable pub update : DeviceEventType → EventType → Observed → Manager → Manager
  update k e d m =
      if not m.power_state then m else if not (can_display_toast d) then m else show k e d m
