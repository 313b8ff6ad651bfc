-- ===== src/Media/Mtp/Handled.antt =====
-- What holds of the media players that the handler keeps, and of the directories it touches.
use com_webos_service_pdm.Prelude.{
  String, Bool, true, false, List, [], Option, none, some, ℤ, is_empty, str_eq, All, All-append,
  if_cases,
}
use com_webos_service_pdm.Errors.{is_success}
use com_webos_service_pdm.Os.{Os, Trace}
use com_webos_service_pdm.DeviceClass.{
  Props, get_action, get_media_player_id, get_dev_name, find_device_action, DeviceActions, dev_add,
  dev_remove, dev_change, dev_bind, dev_unknown,
}
use com_webos_service_pdm.StorageHandler.Requests.{
  CommandType, format, eject, fsck, set_volume_label, umount_all_drive, is_writable_drive,
  mount_fsck, space_info, io_performance, no_command,
}
use com_webos_service_pdm.StorageHandler.Power.{
  PluginEvent, request_suspend, prepare_resume, request_umountall, prepare_suspend, other_event,
}
use com_webos_service_pdm.Devices
use com_webos_service_pdm.Devices.{Handler, get_device, sweep}
use com_webos_service_pdm.Devices.Lists.{
  Each, get_device-Each, remove_device-All, put_device-All, sweep-All,
}
use com_webos_service_pdm.Devices.Serve.{Operations, Request, serve_all, serve_all_keeps}
use com_webos_service_pdm.Media
use com_webos_service_pdm.Media.{Storage, new_storage, fusermount}
use com_webos_service_pdm.Media.Mtp
use com_webos_service_pdm.Media.Mtp.{
  new_mtp, set_device_info, get_dev_links, drop, mtp_mount, mtp_umount,
}
use com_webos_service_pdm.Media.Within.{IsWithin}
use com_webos_service_pdm.Media.Mtp.Kept.{
  IsKept, set_device_info-IsFresh, mtp_umount-Kept, eject_device-Kept, on_device_remove-IsWithin,
  mtp_mount-Mounts,
}

module _ (os : Os) where
  -- The handler keeps such devices only, and has worked under the common root only.
  pub record IsSound (h : Handler Storage) : Type 0 where
    pub kept : All (IsKept os) h.devices
    pub within : IsWithin os.root_path h.trace

  add_device-IsSound :
      (dev : Props) (h : Handler Storage) → IsSound h → IsSound (Mtp.add_device os dev h).1
  unfolding Mtp.add_device
  add_device-IsSound dev h s =
      let m =
        mtp_mount-Mounts os (get_dev_name dev) (set_device_info os dev (new_mtp os)) h.trace
          (set_device_info-IsFresh os dev) s.within in
      if_cases IsSound (is_empty (get_dev_name dev)) (λ _. s)
        (λ _.
          if_cases IsSound
            (is_success
              (mtp_mount os (get_dev_name dev) (set_device_info os dev (new_mtp os)) h.trace).0)
            (λ e. record {
              kept = All-append (IsKept os) h.devices _ s.kept (m.2 e, tt);
              within = (tt, m.0);
            })
            (λ _. record { kept = s.kept; within = on_device_remove-IsWithin os _ _ m.1 m.0 }))

  remove_path-IsSound :
      (path : String) (h : Handler Storage) → IsSound h → IsSound (Mtp.remove_path os path h).1
  unfolding Mtp.remove_path
  remove_path-IsSound path h s =
      go (get_device (Devices.has_path (λ (d : Storage). d.device) path) h.devices)
        (get_device-Each (IsKept os) _ h.devices s.kept)
    where
      go :
          (o : Option Storage)
          → Each (IsKept os) o
          → IsSound (Mtp.remove_found os (Devices.has_path (λ (d : Storage). d.device) path) o h).1
      go none k = s
      go (some d) k = record {
        kept = remove_device-All (IsKept os) _ h.devices s.kept;
        within = (tt, on_device_remove-IsWithin os d h.trace k.named s.within);
      }

  process-IsSound :
      (dev : Props) (h : Handler Storage) → IsSound h → IsSound (Mtp.process_mtp_device os dev h).1
  unfolding Mtp.process_mtp_device
  process-IsSound dev h s = go (find_device_action (get_action dev))
    where
      go : (a : Option DeviceActions) → IsSound (Mtp.process_action os a dev h).1
      go none = s
      go (some dev_add) = add_device-IsSound dev h s
      go (some dev_remove) = remove_path-IsSound _ h s
      go (some dev_change) = s
      go (some dev_bind) = s
      go (some dev_unknown) = s

  handler_event-IsSound :
      (dev : Props) (h : Handler Storage) → IsSound h → IsSound (Mtp.handler_event os dev h).1
  unfolding Mtp.handler_event
  handler_event-IsSound dev h s =
      if_cases (λ (r : Bool × Handler Storage). IsSound r.1) (str_eq (get_action dev) "remove")
        (λ _. process-IsSound dev h s)
        (λ _.
          if_cases (λ (r : Bool × Handler Storage). IsSound r.1)
            (str_eq (get_media_player_id dev) "1") (λ _. process-IsSound dev h s) (λ _. s))

  eject_request-IsSound :
      (num : ℤ) (h : Handler Storage) → IsSound h → IsSound (Mtp.eject_request os num h).1
  unfolding Mtp.eject_request Mtp.eject_at Mtp.eject_found
  eject_request-IsSound num h s =
      go (get_device test h.devices) (get_device-Each (IsKept os) _ h.devices s.kept)
    where
      test : Storage → Bool
      test = Devices.has_num (λ (d : Storage). d.device) num

      go : (o : Option Storage) → Each (IsKept os) o → IsSound (Mtp.eject_at os test o h).1
      go none k = s
      go (some d) k =
          let e = eject_device-Kept os d h.trace k s.within in
          record { kept = put_device-All (IsKept os) _ _ h.devices e.0 s.kept; within = (tt, e.1) }

  handler_command-IsSound :
      (c : CommandType) (h : Handler Storage) → IsSound h → IsSound (Mtp.handler_command os c h).1
  unfolding Mtp.handler_command
  handler_command-IsSound (eject num) h s = eject_request-IsSound num h s
  handler_command-IsSound (format a b c) h s = s
  handler_command-IsSound (fsck a) h s = s
  handler_command-IsSound (set_volume_label a b) h s = s
  handler_command-IsSound umount_all_drive h s = s
  handler_command-IsSound (is_writable_drive a) h s = s
  handler_command-IsSound (mount_fsck a b) h s = s
  handler_command-IsSound (space_info a b) h s = s
  handler_command-IsSound io_performance h s = s
  handler_command-IsSound no_command h s = s

  sweep-IsSound :
      (body : Bool → Storage → Trace → Bool × Storage × Trace)
      → ((b : Bool) (d : Storage) (t : Trace)
          → (IsKept os) d
          → IsWithin os.root_path t
          → (IsKept os) (body b d t).1 × IsWithin os.root_path (body b d t).2)
      → (b : Bool) (h : Handler Storage) → IsSound h
      → IsSound (record {
        devices = (sweep body b h.devices h.trace).1;
        trace = (sweep body b h.devices h.trace).2;
      })
  sweep-IsSound body keep b h s =
      let r =
        sweep-All (IsKept os) (IsWithin os.root_path) body keep b h.devices h.trace s.kept
          s.within in
      record { kept = r.0; within = r.1 }

  handle_plugin_event-IsSound :
      (e : PluginEvent) (h : Handler Storage)
      → IsSound h
      → IsSound (Mtp.handle_plugin_event os e h).1
  unfolding Mtp.handle_plugin_event Mtp.umount_all_drive Mtp.for_each Media.suspend_request
      Media.resume_request Mtp.umount_turn
  handle_plugin_event-IsSound request_suspend h s =
      sweep-IsSound _
        (λ b d t k w. (
          record {
            named = k.named;
            mounted_at = k.mounted_at;
            ejected_unmounted = k.ejected_unmounted;
          },
          w,
        ))
        false h s
  handle_plugin_event-IsSound prepare_resume h s =
      sweep-IsSound _
        (λ b d t k w. (
          record {
            named = k.named;
            mounted_at = k.mounted_at;
            ejected_unmounted = k.ejected_unmounted;
          },
          w,
        ))
        false h s
  handle_plugin_event-IsSound request_umountall h s =
      sweep-IsSound _ (λ b d t k w. mtp_umount-Kept os d t k w) true h s
  handle_plugin_event-IsSound prepare_suspend h s =
      sweep-IsSound _ (λ b d t k w. mtp_umount-Kept os d t k w) true h s
  handle_plugin_event-IsSound other_event h s = s

  -- MTPDeviceHandler
  abbrev pub mtp_operations : Operations (Handler Storage)
  mtp_operations = record {
    handler_event = Mtp.handler_event os;
    handler_command = Mtp.handler_command os;
    handle_plugin_event = Mtp.handle_plugin_event os;
  }

-- Whatever events, commands and power events reach a new MTP handler, in any order and number, the
-- root path of each device that it holds is the common root path with the drive name right behind
-- it, its mount point is that with a slash and the drive name again, and it is not mounted once it
-- is ejected; and every directory that was made or removed has a path that begins with the common
-- root path. Two devices can have the same drive name, and a drive name can be empty.
pub serve_all-IsSound :
    (os : Os) (rs : List Request)
    → IsSound os (serve_all (mtp_operations os) rs (record { devices = []; trace = [] }))
serve_all-IsSound os rs =
    serve_all_keeps (mtp_operations os) (IsSound os) (handler_event-IsSound os)
      (handler_command-IsSound os) (handle_plugin_event-IsSound os) rs _
      (record { kept = tt; within = tt })
