-- ===== src/StorageHandler/Events.antt =====
-- Device events in handlers/storage/StorageDeviceHandler.cpp: HandlerEvent with what it calls.
pub mod Bound
use com_webos_service_pdm.Prelude.{
  ℕ, String, Bool, true, false, not, ◌||◌, ◌&&◌, List, [], ◌∷◌, ◌++◌, Option, none, some, ℤ, pos,
  length, leb, str_eq, is_empty, if◌then◌else◌, pure, branch, ◌>>=◌, ◌>>◌,
}
use com_webos_service_pdm.Os.{
  Os, Trace, Io, notify_observers, storage_device, remove, max_count_reached, this_device,
  no_device, Target,
}
use com_webos_service_pdm.DeviceClass.{
  Props, get_action, get_dev_type, get_dev_path, get_dev_name, get_subsystem_name,
  get_interface_class, get_hard_disk, contains, DeviceActions, dev_add, dev_change,
  find_device_action,
}
use com_webos_service_pdm.StorageDevice.State.{StorageDevice, Dev, OnDev, new_device}
use com_webos_service_pdm.StorageDevice.Info.Sd.{set_device_info, set_extra_sd_card_details}
use com_webos_service_pdm.StorageDevice.Removal.{on_device_remove}
use com_webos_service_pdm.StorageHandler.State.{
  StorageHandler, Handler, OnHandler, io_handler, get_device, has_path, has_name, on_device,
}

-- The interface class 08 is mass storage, and "1" marks an ATA disk.
unfoldable pub is_storage_device : Props → Bool
unfolding contains
is_storage_device dev =
    contains ":08" (get_interface_class dev)
    || (str_eq (get_hard_disk dev) "1" || str_eq (get_hard_disk dev) "1")

-- The device that createStorageDevice makes before it reads the properties: `other` is the device
-- of a further card.
abbrev pub fresh_device : String → Option StorageDevice → StorageDevice
fresh_device root none = new_device root
fresh_device root (some other) =
    set_extra_sd_card_details other (record (new_device root) { is_extra_sd_card = true })

module _ (os : Os) where
  add_device : Props → StorageDevice → OnHandler (Unit {0})
  add_device dev fresh h =
      let (u, d) = set_device_info os dev (record { device = fresh; trace = h.trace }) in
      (
        tt,
        record {
          state = record h.state { storage_list = h.storage_list ++ d.device ∷ [] };
          trace = d.trace;
        },
      )

  unfoldable pub create_storage_device : Props → Option StorageDevice → OnHandler (Unit {0})
  unfolding add_device
  create_storage_device dev other h =
      if leb h.max_storage_devices (length h.storage_list)
      then io_handler (notify_observers storage_device max_count_reached no_device) h
      else add_device dev (fresh_device os.root_path other) h

  abbrev update_named : Props → StorageDevice → Option StorageDevice → OnHandler (Unit {0})
  update_named dev at_path none = create_storage_device dev (some at_path)
  update_named dev at_path (some d) =
      on_device tt (has_name (get_dev_name dev)) (set_device_info os dev)

  update_found : Props → Option StorageDevice → OnHandler (Unit {0})
  update_found dev none h = (tt, h)
  update_found dev (some d) h =
      let at_path = on_device tt (has_path (get_dev_path dev)) (set_device_info os dev) in
      let by_name = get_device (has_name (get_dev_name dev)) h.storage_list in
      if is_empty d.device_name then at_path h else update_named dev d by_name h

  abbrev is_missing : Option StorageDevice → Bool
  is_missing none = true
  is_missing (some d) = false

  unfoldable pub check_storage_device : Props → OnHandler (Unit {0})
  unfolding update_found
  check_storage_device dev h =
      let by_path = get_device (has_path (get_dev_path dev)) h.storage_list in
      if str_eq (get_dev_type dev) "usb_device" && is_missing by_path
      then create_storage_device dev none h
      else update_found dev by_path h

  process_action : Option DeviceActions → Props → OnHandler (Unit {0})
  process_action (some dev_add) dev = check_storage_device dev
  process_action (some dev_change) dev = check_storage_device dev
  process_action _ dev = pure tt

  unfoldable pub process_storage_device : Props → OnHandler (Unit {0})
  unfolding process_action
  process_storage_device dev = process_action (find_device_action (get_action dev)) dev

  abbrev tell_removed : StorageDevice → Io (Unit {0})
  tell_removed d t =
      if d.is_dev_add_event_notified
      then notify_observers storage_device remove this_device t
      else (tt, t)

  -- onDeviceRemove and removeDevice of the first device that passes.
  unfoldable pub remove_at :
      (StorageDevice → Bool) → List StorageDevice → Trace → List StorageDevice × Trace
  remove_at test [] t = ([], t)
  remove_at test (d ∷ ds) t =
      let (u, gone) = on_device_remove os (record { device = d; trace = t }) in
      let (v, t') = tell_removed gone.device gone.trace in
      let (ds', t'') = remove_at test ds t in if test d then (ds, t') else (d ∷ ds', t'')

  unfoldable pub remove_device : (StorageDevice → Bool) → OnHandler (Unit {0})
  unfolding remove_at
  remove_device test h =
      let (ds, t) = remove_at test h.storage_list h.trace in
      (tt, record { state = record h.state { storage_list = ds }; trace = t })

  remove_usb : Props → Option StorageDevice → OnHandler Bool
  remove_usb dev none h = (false, h)
  remove_usb dev (some d) h = (true, (remove_device (has_path (get_dev_path dev)) h).1)

  -- A disk is removed only where it is a further card, and that is not reported.
  remove_disk : Props → Option StorageDevice → OnHandler Bool
  remove_disk dev none h = (false, h)
  remove_disk dev (some d) h =
      if not d.is_extra_sd_card
      then (false, h)
      else (false, (remove_device (has_name (get_dev_name dev)) h).1)

  unfoldable pub delete_storage_device : Props → OnHandler Bool
  unfolding remove_usb remove_disk
  delete_storage_device dev h =
      if str_eq (get_dev_type dev) "usb_device"
      then remove_usb dev (get_device (has_path (get_dev_path dev)) h.storage_list) h
      else if str_eq (get_dev_type dev) "disk"
      then remove_disk dev (get_device (has_name (get_dev_name dev)) h.storage_list) h
      else (false, h)

  unfoldable pub handler_event : Props → OnHandler Bool
  handler_event dev h =
      if str_eq (get_action dev) "remove"
      then delete_storage_device dev h
      else if not (is_storage_device dev)
      then (false, h)
      else if str_eq (get_dev_type dev) "usb_device"
      then (false, (process_storage_device dev h).1)
      else if str_eq (get_subsystem_name dev) "block"
      then (true, (process_storage_device dev h).1)
      else (false, h)
