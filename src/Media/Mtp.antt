-- ===== src/Media/Mtp.antt =====
-- devices/mtp/MTPDevice.cpp and handlers/mtp/MTPDeviceHandler.cpp: media players, in a build
-- without WEBOS_SESSION.
pub mod Kept
pub mod Handled
pub mod Eject
pub mod Twice
pub mod Root
use com_webos_service_pdm.Prelude.{
  ℕ, zero, suc, String, Bool, true, false, not, ◌&&◌, ◌||◌, List, [], ◌∷◌, ◌++◌, Option, none, some,
  ℤ, pos, ◌==ℤ◌, append, str_eq, is_empty, if◌then◌else◌, pure,
}
use com_webos_service_pdm.Utils.{to_int, split_args}
use com_webos_service_pdm.Errors.{
  PdmDevStatus, success, umount_fail, eject_fail, device_not_found, is_success,
}
use com_webos_service_pdm.Os.{
  Os, Trace, Io, add, remove, umount, remove_before_mount, mtp_device, no_device, this_device,
  notify_observers, run, create_dir, remove_dir_recursive,
}
use com_webos_service_pdm.DeviceClass.{
  Props, get_prop, get_action, get_dev_type, get_dev_path, get_dev_name, get_speed,
  get_media_player_id, DeviceActions, dev_add, dev_remove, find_device_action,
}
use com_webos_service_pdm.Partition.{usb_mtp}
use com_webos_service_pdm.StorageDevice.State.{err_nothing, err_ejected}
use com_webos_service_pdm.StorageDevice.Info.{get_device_speed}
use com_webos_service_pdm.StorageHandler.Requests.{CommandType, eject, Reply, reply_of}
use com_webos_service_pdm.StorageHandler.Power.{
  PluginEvent, request_suspend, prepare_resume, request_umountall, prepare_suspend,
}
use com_webos_service_pdm.Devices
use com_webos_service_pdm.Devices.{
  Handler, OnHandler, command_notification, has_num, has_path, get_device, remove_device,
  put_device, sweep,
}
use com_webos_service_pdm.Media.{Storage, new_storage, resume_request, suspend_request, fusermount}

-- erase(0, 8)
unfoldable pub drop : ℕ → String → String
drop zero s = s
drop (suc n) String.[] = String.[]
drop (suc n) (String.◌∷◌ c s) = drop n s

abbrev pub get_dev_links : Props → String
get_dev_links = get_prop "DEVLINKS"

name_paths : String → Storage → Storage
name_paths name d =
    let root = append d.root_path name in
    let named = record d {
      drive_name = name;
      root_path = root;
      mount_name = append root (append "/" name);
    } in
    named

module _ (os : Os) where
  unfoldable pub new_mtp : Storage
  new_mtp = new_storage os "MTP" "mtp_fuse" usb_mtp

  set_speed : Props → Storage → Storage
  set_speed dev d = record d {
    device = record d.device {
      dev_speed =
          if is_empty (get_speed dev)
          then d.device.dev_speed
          else get_device_speed (to_int (get_speed dev));
    };
  }

  set_names : Props → Storage → Storage
  unfolding name_paths
  set_names dev d =
      if is_empty (get_dev_links dev)
      then record d { drive_name = "" }
      else name_paths (drop 8 (get_dev_links dev)) d

  unfoldable pub set_device_info : Props → Storage → Storage
  unfolding set_speed set_names
  set_device_info dev d =
      let s =
        if str_eq (get_dev_type dev) "usb_device" then set_names dev (set_speed dev d) else d in
      record s { device = Devices.set_device_info os dev s.device }

  unfoldable pub mount_device : String → String → Io Bool
  mount_device name mount_name t =
      let words = split_args "simple-mtpfs -o nonempty -o auto_unmount -o allow_other " in
      let (res, t') = run os (words ++ append "/dev/" name ∷ mount_name ∷ []) t in
      (res ==ℤ pos 0, t')

  -- createDir && mountDevice
  make_mount : String → String → Io Bool
  unfolding mount_device
  make_mount name mount_name t =
      let (made, t') = create_dir os mount_name t in
      if made then mount_device name mount_name t' else (false, t')

  unfoldable pub mtp_mount : String → Storage → Trace → PdmDevStatus × Storage × Trace
  unfolding make_mount
  mtp_mount name d t =
      let (mounted, t') = make_mount name d.mount_name t in
      if is_empty name || is_empty d.mount_name
      then (umount_fail, d, t)
      else if mounted
      then (
        success,
        record d { device = record d.device { error_reason = err_nothing }; is_mounted = true },
        t',
      )
      else (umount_fail, d, (remove_dir_recursive os d.root_path t').1)

  unfoldable pub mtp_umount : Storage → Trace → PdmDevStatus × Storage × Trace
  mtp_umount d t =
      let (res, t') = fusermount os d.mount_name t in
      if not d.is_mounted
      then (umount_fail, d, t)
      else if res ==ℤ pos 0
      then (success, record d { is_mounted = false }, t')
      else (umount_fail, d, t')

  tell_unmounted : Storage → Io (Unit {0})
  tell_unmounted d t =
      if not d.is_mounted && not (str_eq d.error_reason err_ejected)
      then command_notification mtp_device remove_before_mount this_device t
      else (tt, t)

  -- The device is deleted behind this, and only its last calls matter.
  unfoldable pub on_device_remove : Storage → Trace → Trace
  unfolding tell_unmounted
  on_device_remove d t =
      let t' = (tell_unmounted d t).1 in
      let (status, d', t'') = mtp_umount d t' in
      let unmounted = if str_eq d.error_reason err_ejected then t' else t'' in
      (remove_dir_recursive os d.root_path unmounted).1

  unfoldable pub eject_device : Storage → Trace → PdmDevStatus × Storage × Trace
  eject_device d t =
      let (status, d', t') = mtp_umount d t in
      if is_success status
      then (success, record d' { device = record d'.device { error_reason = err_ejected } }, t')
      else (eject_fail, d', t')

  -- A device is kept where it is mounted.
  unfoldable pub add_device : Props → OnHandler Storage (Unit {0})
  add_device dev h =
      let d = set_device_info dev new_mtp in
      let (status, d', t) = mtp_mount (get_dev_name dev) d h.trace in
      let kept : Handler Storage = record {
        devices = h.devices ++ d' ∷ [];
        trace = (notify_observers mtp_device add no_device t).1;
      } in
      let dropped = record h { trace = on_device_remove d' t } in
      (tt, if is_empty (get_dev_name dev) then h else if is_success status then kept else dropped)

  remove_found : (Storage → Bool) → Option Storage → OnHandler Storage (Unit {0})
  remove_found test none h = (tt, h)
  remove_found test (some d) h =
      let t = on_device_remove d h.trace in
      (
        tt,
        record {
          devices = remove_device test h.devices;
          trace = (notify_observers mtp_device remove this_device t).1;
        },
      )

  unfoldable pub remove_path : String → OnHandler Storage (Unit {0})
  unfolding remove_found
  remove_path path h =
      let test = has_path (λ (d : Storage). d.device) path in
      remove_found test (get_device test h.devices) h

  process_action : Option DeviceActions → Props → OnHandler Storage (Unit {0})
  process_action (some dev_add) dev = add_device dev
  process_action (some dev_remove) dev = remove_path (get_dev_path dev)
  process_action _ dev = pure tt

  -- ProcessMTPDevice
  unfoldable pub process_mtp_device : Props → OnHandler Storage (Unit {0})
  unfolding process_action
  process_mtp_device dev = process_action (find_device_action (get_action dev)) dev

  unfoldable pub handler_event : Props → OnHandler Storage Bool
  handler_event dev h =
      if str_eq (get_action dev) "remove"
      then (false, (process_mtp_device dev h).1)
      else if str_eq (get_media_player_id dev) "1"
      then (false, (process_mtp_device dev h).1)
      else (false, h)

  eject_found : (Storage → Bool) → Storage → OnHandler Storage PdmDevStatus
  eject_found test d h =
      let (status, d', t) = eject_device d h.trace in
      (
        status,
        record {
          devices = put_device test d' h.devices;
          trace = (notify_observers mtp_device umount no_device t).1;
        },
      )

  eject_at : (Storage → Bool) → Option Storage → OnHandler Storage (Bool × Option Reply)
  unfolding eject_found
  eject_at test none h = ((false, some (reply_of device_not_found)), h)
  eject_at test (some d) h =
      let (status, h') = eject_found test d h in ((true, some (reply_of status)), h')

  unfoldable pub eject_request : ℤ → OnHandler Storage (Bool × Option Reply)
  unfolding eject_at
  eject_request num h =
      let test = has_num (λ (d : Storage). d.device) num in
      eject_at test (get_device test h.devices) h

  unfoldable pub handler_command : CommandType → OnHandler Storage (Bool × Option Reply)
  handler_command (eject num) = eject_request num
  handler_command _ = pure (false, none)

  umount_turn : Bool → Storage → Trace → Bool × Storage × Trace
  umount_turn result d t =
      let (status, d', t') = mtp_umount d t in (is_success status && result, d', t')

  unfoldable pub umount_all_drive : OnHandler Storage Bool
  unfolding umount_turn
  umount_all_drive h =
      let (done, ds, t) = sweep umount_turn true h.devices h.trace in
      (done, record { devices = ds; trace = t })

  -- A loop that sets members and makes no call.
  for_each : (Storage → Storage) → OnHandler Storage Bool
  for_each f h =
      let (done, ds, t) = sweep (λ (b : Bool) d t'. (b, f d, t')) false h.devices h.trace in
      (done, record { devices = ds; trace = t })

  unfoldable pub handle_plugin_event : PluginEvent → OnHandler Storage Bool
  unfolding for_each
  handle_plugin_event request_suspend = for_each suspend_request
  handle_plugin_event prepare_resume = for_each resume_request
  handle_plugin_event request_umountall = umount_all_drive
  handle_plugin_event prepare_suspend = umount_all_drive
  handle_plugin_event _ = pure false
