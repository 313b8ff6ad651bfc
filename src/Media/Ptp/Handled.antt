-- ===== src/Media/Ptp/Handled.antt =====
-- What holds of the cameras that the handler keeps, and of the directories it touches.
use com_webos_service_pdm.Prelude.{
  String, Bool, true, false, not, ◌&&◌, List, [], Option, none, some, ℤ, str_eq, All, All-append,
  if_cases,
}
use com_webos_service_pdm.Os.{Os, Trace}
use com_webos_service_pdm.DeviceClass.{
  Props, get_action, get_media_player_id, get_dev_type, get_interface_class, get_subsystem_name,
  contains, find_device_action, DeviceActions, dev_add, dev_remove, dev_change, dev_bind,
  dev_unknown,
}
use com_webos_service_pdm.StorageHandler.Requests.{
  CommandType, format, eject, fsck, set_volume_label, umount_all_drive, is_writable_drive,
  mount_fsck, space_info, io_performance, no_command,
}
use com_webos_service_pdm.StorageHandler.Power.{
  PluginEvent, request_suspend, prepare_resume, request_umountall, prepare_suspend, other_event,
}
use com_webos_service_pdm.Devices
use com_webos_service_pdm.Devices.{Handler, get_device, sweep}
use com_webos_service_pdm.Devices.Lists.{
  Each, get_device-Each, remove_device-All, put_device-All, sweep-All,
}
use com_webos_service_pdm.Devices.Serve.{Operations, Request, serve_all, serve_all_keeps}
use com_webos_service_pdm.Media
use com_webos_service_pdm.Media.{Storage, new_storage, fusermount}
use com_webos_service_pdm.Media.Ptp
use com_webos_service_pdm.Media.Ptp.{
  PtpDevice, new_ptp, name_paths, dir_name, set_device_info, ptp_mount, ptp_umount, unmount_device,
  has_numbers, read_numbers,
}
use com_webos_service_pdm.Media.Within.{IsWithin}
use com_webos_service_pdm.Media.Ptp.Kept.{
  IsKept, new_ptp-IsFresh, under_root, unmount_device-IsWithin, eject_device-Kept,
  on_device_remove-IsWithin, set_device_info-Mounts,
}

module _ (os : Os) where
  -- The handler keeps such devices only, and has worked under the common root only.
  pub record IsSound (h : Handler PtpDevice) : Type 0 where
    pub kept : All (IsKept os) h.devices
    pub within : IsWithin os.root_path h.trace

  add_device-IsSound :
      (dev : Props) (h : Handler PtpDevice) → IsSound h → IsSound (Ptp.add_device os dev h).1
  unfolding Ptp.add_device
  add_device-IsSound dev h s =
      let m = set_device_info-Mounts os dev (new_ptp os) h.trace (new_ptp-IsFresh os) s.within in
      if_cases IsSound (set_device_info os dev (new_ptp os) h.trace).0.storage.is_mounted
        (λ e. record {
          kept = All-append (IsKept os) h.devices _ s.kept (m.2 e, tt);
          within = (tt, m.0);
        })
        (λ _. record { kept = s.kept; within = on_device_remove-IsWithin os _ _ m.1 m.0 })

  remove_path-IsSound :
      (path : String) (h : Handler PtpDevice) → IsSound h → IsSound (Ptp.remove_path os path h).1
  unfolding Ptp.remove_path
  remove_path-IsSound path h s =
      go (get_device (Devices.has_path (λ (d : PtpDevice). d.storage.device) path) h.devices)
        (get_device-Each (IsKept os) _ h.devices s.kept)
    where
      go :
          (o : Option PtpDevice)
          → Each (IsKept os) o
          → IsSound
              (Ptp.remove_found os
                (Devices.has_path (λ (d : PtpDevice). d.storage.device) path)
                o
                h).1
      go none k = s
      go (some d) k = record {
        kept = remove_device-All (IsKept os) _ h.devices s.kept;
        within = (tt, on_device_remove-IsWithin os d h.trace (under_root os d k.named) s.within);
      }

  process-IsSound :
      (dev : Props) (h : Handler PtpDevice)
      → IsSound h
      → IsSound (Ptp.process_ptp_device os dev h).1
  unfolding Ptp.process_ptp_device
  process-IsSound dev h s = go (find_device_action (get_action dev))
    where
      go : (a : Option DeviceActions) → IsSound (Ptp.process_action os a dev h).1
      go none = s
      go (some dev_add) = add_device-IsSound dev h s
      go (some dev_remove) = remove_path-IsSound _ h s
      go (some dev_change) = s
      go (some dev_bind) = s
      go (some dev_unknown) = s

  handler_event-IsSound :
      (dev : Props) (h : Handler PtpDevice) → IsSound h → IsSound (Ptp.handler_event os dev h).1
  unfolding Ptp.handler_event
  handler_event-IsSound dev h s =
      let P = λ (r : Bool × Handler PtpDevice). IsSound r.1 in
      let done = process-IsSound dev h s in
      let other = not (str_eq (get_media_player_id dev) "1") in
      if_cases P (str_eq (get_action dev) "remove") (λ _. done)
        (λ _.
          if_cases P (not (contains ":06" (get_interface_class dev))) (λ _. s)
            (λ _.
              if_cases P (str_eq (get_dev_type dev) "usb_device" && other) (λ _. done)
                (λ _.
                  if_cases P (str_eq (get_subsystem_name dev) "usb" && other) (λ _. done)
                    (λ _. s))))

  eject_request-IsSound :
      (num : ℤ) (h : Handler PtpDevice) → IsSound h → IsSound (Ptp.eject_request os num h).1
  unfolding Ptp.eject_request Ptp.eject_at Ptp.eject_found
  eject_request-IsSound num h s =
      go (get_device test h.devices) (get_device-Each (IsKept os) _ h.devices s.kept)
    where
      test : PtpDevice → Bool
      test = Devices.has_num (λ (d : PtpDevice). d.storage.device) num

      go : (o : Option PtpDevice) → Each (IsKept os) o → IsSound (Ptp.eject_at os test o h).1
      go none k = s
      go (some d) k =
          let e = eject_device-Kept os d h.trace k s.within in
          record { kept = put_device-All (IsKept os) _ _ h.devices e.0 s.kept; within = (tt, e.1) }

  handler_command-IsSound :
      (c : CommandType) (h : Handler PtpDevice) → IsSound h → IsSound (Ptp.handler_command os c h).1
  unfolding Ptp.handler_command
  handler_command-IsSound (eject num) h s = eject_request-IsSound num h s
  handler_command-IsSound (format a b c) h s = s
  handler_command-IsSound (fsck a) h s = s
  handler_command-IsSound (set_volume_label a b) h s = s
  handler_command-IsSound umount_all_drive h s = s
  handler_command-IsSound (is_writable_drive a) h s = s
  handler_command-IsSound (mount_fsck a b) h s = s
  handler_command-IsSound (space_info a b) h s = s
  handler_command-IsSound io_performance h s = s
  handler_command-IsSound no_command h s = s

  sweep-IsSound :
      (body : Bool → PtpDevice → Trace → Bool × PtpDevice × Trace)
      → ((b : Bool) (d : PtpDevice) (t : Trace)
          → (IsKept os) d
          → IsWithin os.root_path t
          → (IsKept os) (body b d t).1 × IsWithin os.root_path (body b d t).2)
      → (b : Bool) (h : Handler PtpDevice) → IsSound h
      → IsSound (record {
        devices = (sweep body b h.devices h.trace).1;
        trace = (sweep body b h.devices h.trace).2;
      })
  sweep-IsSound body keep b h s =
      let r =
        sweep-All (IsKept os) (IsWithin os.root_path) body keep b h.devices h.trace s.kept
          s.within in
      record { kept = r.0; within = r.1 }

  handle_plugin_event-IsSound :
      (e : PluginEvent) (h : Handler PtpDevice)
      → IsSound h
      → IsSound (Ptp.handle_plugin_event os e h).1
  unfolding Ptp.handle_plugin_event Ptp.umount_all_drive Ptp.for_each Media.suspend_request
      Media.resume_request Ptp.umount_turn dir_name
  handle_plugin_event-IsSound request_suspend h s =
      sweep-IsSound _
        (λ b d t k w. (
          record {
            numbered = k.numbered;
            named = k.named;
            mounted_at = k.mounted_at;
            ejected_unmounted = k.ejected_unmounted;
          },
          w,
        ))
        false h s
  handle_plugin_event-IsSound prepare_resume h s =
      sweep-IsSound _
        (λ b d t k w. (
          record {
            numbered = k.numbered;
            named = k.named;
            mounted_at = k.mounted_at;
            ejected_unmounted = k.ejected_unmounted;
          },
          w,
        ))
        false h s
  handle_plugin_event-IsSound request_umountall h s =
      sweep-IsSound _ (λ b d t k w. (k, unmount_device-IsWithin os d t w)) true h s
  handle_plugin_event-IsSound prepare_suspend h s =
      sweep-IsSound _ (λ b d t k w. (k, unmount_device-IsWithin os d t w)) true h s
  handle_plugin_event-IsSound other_event h s = s

  -- PTPDeviceHandler
  abbrev pub ptp_operations : Operations (Handler PtpDevice)
  ptp_operations = record {
    handler_event = Ptp.handler_event os;
    handler_command = Ptp.handler_command os;
    handle_plugin_event = Ptp.handle_plugin_event os;
  }

-- Whatever events, commands and power events reach a new PTP handler, in any order and number, each
-- camera that it holds has the directory of its bus and device numbers behind the common root path,
-- is mounted below that, and is not mounted once it is ejected; and every directory that was made
-- or removed has a path that begins with the common root path.
pub serve_all-AreCameras :
    (os : Os) (rs : List Request)
    → IsSound os (serve_all (ptp_operations os) rs (record { devices = []; trace = [] }))
serve_all-AreCameras os rs =
    serve_all_keeps (ptp_operations os) (IsSound os) (handler_event-IsSound os)
      (handler_command-IsSound os) (handle_plugin_event-IsSound os) rs _
      (record { kept = tt; within = tt })
