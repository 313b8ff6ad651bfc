-- ===== src/Media/Ptp.antt =====
-- devices/ptp/PTPDevice.cpp and handlers/ptp/PTPDeviceHandler.cpp: cameras, in a build without
-- WEBOS_SESSION.
pub mod Directory
pub mod Kept
pub mod Handled
pub mod Eject
pub mod Twice
pub mod Root
use com_webos_service_pdm.Prelude.{
  String, Bool, true, false, not, ◌&&◌, ◌||◌, List, [], ◌∷◌, ◌++◌, Option, none, some, ℤ, pos,
  ◌==ℤ◌, append, str_eq, is_empty, if◌then◌else◌, pure,
}
use com_webos_service_pdm.Utils.{to_int, split_args}
use com_webos_service_pdm.Errors.{
  PdmDevStatus, success, umount_fail, eject_fail, root_path_empty, device_not_found, is_success,
}
use com_webos_service_pdm.Os.{
  Os, Trace, Io, add, remove, umount, ptp_device, no_device, this_device, notify_observers, run,
  create_dir, remove_dir_recursive,
}
use com_webos_service_pdm.DeviceClass.{
  Props, get_prop, get_action, get_dev_type, get_dev_path, get_dev_number, get_speed,
  get_subsystem_name, get_interface_class, get_media_player_id, contains, DeviceActions, dev_add,
  dev_remove, find_device_action,
}
use com_webos_service_pdm.Partition.{usb_ptp, mount_ok, mount_not_ok, umount_ok, umount_not_ok}
use com_webos_service_pdm.StorageDevice.State.{err_nothing, err_ejected}
use com_webos_service_pdm.StorageDevice.Info.{get_device_speed}
use com_webos_service_pdm.StorageHandler.Requests.{CommandType, eject, Reply, reply_of}
use com_webos_service_pdm.StorageHandler.Power.{
  PluginEvent, request_suspend, prepare_resume, request_umountall, prepare_suspend,
}
use com_webos_service_pdm.Devices
use com_webos_service_pdm.Devices.{
  Handler, OnHandler, has_num, has_path, get_device, remove_device, put_device, sweep,
}
use com_webos_service_pdm.Devices.Numbers.{to_string, to_string_width3}
use com_webos_service_pdm.Media.Ptp.Directory.{check_directory}
use com_webos_service_pdm.Media.{Storage, new_storage, resume_request, suspend_request, fusermount}

pub record PtpDevice : Type 0 where
  pub storage : Storage
  pub open storage use *
  pub ptp_dev_num : ℤ
  pub drive_status : String

abbrev pub get_bus_num : Props → String
get_bus_num = get_prop "BUSNUM"

-- "PTP-" with the numbers of the bus and of the device.
unfoldable pub dir_name : PtpDevice → String
dir_name d =
    append "PTP-"
      (append (to_string d.storage.device.bus_num) (append "-" (to_string d.ptp_dev_num)))

unfoldable pub name_paths : PtpDevice → PtpDevice
name_paths d =
    let root = append d.storage.root_path (dir_name d) in
    record d {
      storage = record d.storage {
        drive_name = dir_name d;
        root_path = root;
        mount_name = append root (append "/" (dir_name d));
      };
    }

module _ (os : Os) where
  unfoldable pub new_ptp : PtpDevice
  new_ptp = record {
    storage = new_storage os "PTP" "ptp_fuse" usb_ptp;
    ptp_dev_num = pos 0;
    drive_status = "";
  }

  unfoldable pub mount_device : PtpDevice → Io Bool
  mount_device d t =
      let port = append "--port=usb:" (
        append (to_string_width3 d.storage.device.bus_num)
          (append "," (to_string_width3 d.ptp_dev_num))) in
      let words = split_args "/usr/bin/gphotofs -o nonempty -o auto_unmount -o allow_other" in
      let (res, t') = run os (words ++ port ∷ d.storage.mount_name ∷ []) t in
      (res ==ℤ pos 0 && check_directory os t' d.storage.mount_name, t')

  -- createDir && mountDevice
  make_mount : PtpDevice → Io Bool
  unfolding mount_device
  make_mount d t =
      let (made, t') = create_dir os d.storage.mount_name t in
      if made then mount_device d t' else (false, t')

  unfoldable pub mounted_device : PtpDevice → PtpDevice
  mounted_device d = record d {
    storage = record d.storage {
      device = record d.storage.device { error_reason = err_nothing };
      is_mounted = true;
    };
    drive_status = mount_ok;
  }

  unfoldable pub ptp_mount : PtpDevice → Trace → PdmDevStatus × PtpDevice × Trace
  unfolding make_mount name_paths mounted_device
  ptp_mount d t =
      let n = name_paths d in
      let (mounted, t') = make_mount n t in
      if is_empty d.storage.root_path
      then (root_path_empty, d, t)
      else if mounted
      then (success, mounted_device n, t')
      else (umount_fail, record n { drive_status = mount_not_ok }, t')

  -- What it finds is what the flag or fusermount says; the flag is left alone.
  unfoldable pub unmount_device : PtpDevice → Io Bool
  unmount_device d t =
      let (res, t') = fusermount os d.storage.mount_name t in
      if not d.storage.is_mounted then (true, t) else (res ==ℤ pos 0, t')

  unfoldable pub ptp_umount : PtpDevice → Trace → PdmDevStatus × PtpDevice × Trace
  ptp_umount d t =
      let (done, t') = unmount_device d t in
      if d.storage.is_mounted && done
      then (
        success,
        record d { storage = record d.storage { is_mounted = false }; drive_status = umount_ok },
        t',
      )
      else (umount_fail, record d { drive_status = umount_not_ok }, t')

  -- The device is deleted behind this, and only its last calls matter.
  unfoldable pub on_device_remove : PtpDevice → Trace → Trace
  on_device_remove d t =
      let (status, d', t') = ptp_umount d t in
      let unmounted = if str_eq d.storage.device.error_reason err_ejected then t else t' in
      (remove_dir_recursive os d.storage.root_path unmounted).1

  unfoldable pub read_numbers : Props → PtpDevice → PtpDevice
  read_numbers dev d =
      let base = d.storage.device in
      let read = record base {
        dev_speed =
            if is_empty (get_speed dev)
            then base.dev_speed
            else get_device_speed (to_int (get_speed dev));
        bus_num = if is_empty (get_bus_num dev) then base.bus_num else to_int (get_bus_num dev);
      } in
      record d {
        storage = record d.storage { device = Devices.set_device_info os dev read };
        ptp_dev_num =
            if is_empty (get_dev_number dev) then d.ptp_dev_num else to_int (get_dev_number dev);
      }

  abbrev pub has_numbers : PtpDevice → Bool
  has_numbers d =
      not (d.storage.device.device_num ==ℤ pos 0) && not (d.storage.device.bus_num ==ℤ pos 0)

  -- setDeviceInfo, which mounts the device.
  unfoldable pub set_device_info : Props → PtpDevice → Trace → PtpDevice × Trace
  set_device_info dev d t =
      let read = if str_eq (get_dev_type dev) "usb_device" then read_numbers dev d else d in
      let (status, d', t') = ptp_mount read t in if has_numbers read then (d', t') else (read, t)

  unfoldable pub eject_device : PtpDevice → Trace → PdmDevStatus × PtpDevice × Trace
  eject_device d t =
      let (status, d', t') = ptp_umount d t in
      let ejected = record d' {
        storage = record d'.storage {
          device = record d'.storage.device { error_reason = err_ejected };
        };
      } in
      if is_success status then (success, ejected, t') else (eject_fail, d', t')

  -- A device is kept where it is mounted.
  unfoldable pub add_device : Props → OnHandler PtpDevice (Unit {0})
  add_device dev h =
      let (d, t) = set_device_info dev new_ptp h.trace in
      let kept : Handler PtpDevice = record {
        devices = h.devices ++ d ∷ [];
        trace = (notify_observers ptp_device add no_device t).1;
      } in
      let dropped = record h { trace = on_device_remove d t } in
      (tt, if d.storage.is_mounted then kept else dropped)

  remove_found : (PtpDevice → Bool) → Option PtpDevice → OnHandler PtpDevice (Unit {0})
  remove_found test none h = (tt, h)
  remove_found test (some d) h =
      let t = on_device_remove d h.trace in
      (
        tt,
        record {
          devices = remove_device test h.devices;
          trace = (notify_observers ptp_device remove this_device t).1;
        },
      )

  unfoldable pub remove_path : String → OnHandler PtpDevice (Unit {0})
  unfolding remove_found
  remove_path path h =
      let test = has_path (λ (d : PtpDevice). d.storage.device) path in
      remove_found test (get_device test h.devices) h

  process_action : Option DeviceActions → Props → OnHandler PtpDevice (Unit {0})
  process_action (some dev_add) dev = add_device dev
  process_action (some dev_remove) dev = remove_path (get_dev_path dev)
  process_action _ dev = pure tt

  -- ProcessPTPDevice
  unfoldable pub process_ptp_device : Props → OnHandler PtpDevice (Unit {0})
  unfolding process_action
  process_ptp_device dev = process_action (find_device_action (get_action dev)) dev

  unfoldable pub handler_event : Props → OnHandler PtpDevice Bool
  handler_event dev h =
      let other = not (str_eq (get_media_player_id dev) "1") in
      let processed = (process_ptp_device dev h).1 in
      if str_eq (get_action dev) "remove"
      then (false, processed)
      else if not (contains ":06" (get_interface_class dev))
      then (false, h)
      else if str_eq (get_dev_type dev) "usb_device" && other
      then (false, processed)
      else if str_eq (get_subsystem_name dev) "usb" && other
      then (true, processed)
      else (false, h)

  eject_found : (PtpDevice → Bool) → PtpDevice → OnHandler PtpDevice PdmDevStatus
  eject_found test d h =
      let (status, d', t) = eject_device d h.trace in
      (
        status,
        record {
          devices = put_device test d' h.devices;
          trace = (notify_observers ptp_device umount no_device t).1;
        },
      )

  eject_at : (PtpDevice → Bool) → Option PtpDevice → OnHandler PtpDevice (Bool × Option Reply)
  unfolding eject_found
  eject_at test none h = ((false, some (reply_of device_not_found)), h)
  eject_at test (some d) h =
      let (status, h') = eject_found test d h in ((true, some (reply_of status)), h')

  unfoldable pub eject_request : ℤ → OnHandler PtpDevice (Bool × Option Reply)
  unfolding eject_at
  eject_request num h =
      let test = has_num (λ (d : PtpDevice). d.storage.device) num in
      eject_at test (get_device test h.devices) h

  unfoldable pub handler_command : CommandType → OnHandler PtpDevice (Bool × Option Reply)
  handler_command (eject num) = eject_request num
  handler_command _ = pure (false, none)

  umount_turn : Bool → PtpDevice → Trace → Bool × PtpDevice × Trace
  umount_turn result d t = let (done, t') = unmount_device d t in (done && result, d, t')

  unfoldable pub umount_all_drive : OnHandler PtpDevice Bool
  unfolding umount_turn
  umount_all_drive h =
      let (done, ds, t) = sweep umount_turn true h.devices h.trace in
      (done, record { devices = ds; trace = t })

  -- A loop that sets members and makes no call.
  for_each : (Storage → Storage) → OnHandler PtpDevice Bool
  for_each f h =
      let (done, ds, t) =
        sweep (λ (b : Bool) (d : PtpDevice) t'. (b, record d { storage = f d.storage }, t')) false
          h.devices h.trace in
      (done, record { devices = ds; trace = t })

  unfoldable pub handle_plugin_event : PluginEvent → OnHandler PtpDevice Bool
  unfolding for_each
  handle_plugin_event request_suspend = for_each suspend_request
  handle_plugin_event prepare_resume = for_each resume_request
  handle_plugin_event request_umountall = umount_all_drive
  handle_plugin_event prepare_suspend = umount_all_drive
  handle_plugin_event _ = pure false
