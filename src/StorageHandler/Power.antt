-- ===== src/StorageHandler/Power.antt =====
-- Power events, the callback of the devices and the thread that reads the sizes, in
-- handlers/storage/StorageDeviceHandler.cpp.
use com_webos_service_pdm.Prelude.{
  Bool, true, false, not, ◌&&◌, List, [], ◌∷◌, any, if◌then◌else◌, pure, ◌>>=◌, ◌>>◌,
}
use com_webos_service_pdm.Os.{
  Os, EventType, mount, umount, add, Target, no_device, DeviceEventType, all_device, storage_device,
  notify_observers,
}
use com_webos_service_pdm.Partition.{DiskPartitionInfo}
use com_webos_service_pdm.StorageDevice.State.{StorageDevice, OnDev}
use com_webos_service_pdm.StorageDevice.Power.{
  suspend_umount_all_partitions, suspend_request, resume_request,
}
use com_webos_service_pdm.StorageDevice.Commands.{get_space_info}
use com_webos_service_pdm.StorageHandler.State.{OnHandler, io_handler, on_devices}

-- PowerProcessing of inc/public/Plugin-Api.h, and all other events.
pub data PluginEvent : Type 0 where
  request_suspend prepare_resume request_umountall prepare_suspend other_event : PluginEvent

abbrev pub device_mounted : StorageDevice → Bool
device_mounted d = d.device_is_mounted

-- The device type under which the callback of a device passes an event on.
abbrev pub callback_type : EventType → DeviceEventType
callback_type mount = all_device
callback_type umount = all_device
callback_type _ = storage_device

-- commandNotification; the thread sets its own flag when it starts.
unfoldable pub command_notification : EventType → Target → OnHandler (Unit {0})
command_notification event device = do
  io_handler (notify_observers (callback_type event) event device)
  λ h. (
    tt,
    if not h.space_thread && any device_mounted h.storage_list
        then record h { state = record h.state { space_thread = true } }
        else h,
  )

module _ (os : Os) where
  abbrev pub umount_device : Bool → Bool → OnDev Bool
  umount_device lazy result = do done ← suspend_umount_all_partitions os lazy; pure (done && result)

  unfoldable pub umount_all_drive : Bool → OnHandler Bool
  umount_all_drive lazy = on_devices (umount_device lazy) true

  unfoldable pub suspend_all : OnHandler (Unit {0})
  suspend_all = on_devices (λ _. suspend_request os) tt

  unfoldable pub resume_all : OnHandler (Unit {0})
  resume_all = do
    on_devices (λ _. resume_request os) tt
    io_handler (notify_observers storage_device add no_device)

  unfoldable pub handle_plugin_event : PluginEvent → OnHandler Bool
  handle_plugin_event request_suspend = do suspend_all; pure false
  handle_plugin_event prepare_resume = do resume_all; pure false
  handle_plugin_event request_umountall = umount_all_drive false
  handle_plugin_event prepare_suspend = umount_all_drive true
  handle_plugin_event other_event = pure false

  read_spaces : List DiskPartitionInfo → OnDev (Unit {0})
  read_spaces [] d = (tt, d)
  read_spaces (p ∷ ps) d = read_spaces ps (get_space_info os p.drive_name true d).1

  pub read_device : OnDev (Unit {0})
  unfolding read_spaces
  read_device d = if d.device_is_mounted then read_spaces d.partitions d else (tt, d)

  -- One turn of the loop of computeSpaceInfoThread: whether the loop goes on. The thread clears its
  -- flag behind the loop.
  unfoldable pub compute_space_info : OnHandler Bool
  unfolding read_device
  compute_space_info h =
      let stopped = record h { state = record h.state { space_thread = false } } in
      if not h.space_thread
      then (false, stopped)
      else if any device_mounted h.storage_list
      then (true, (on_devices (λ _. read_device) tt h).1)
      else (false, stopped)
