-- ===== src/Peripherals/Nfc.antt =====
-- devices/nfc/NfcDevice.cpp and handlers/nfc/NfcDeviceHandler.cpp: readers of NFC tags.
pub mod Sticky
use com_webos_service_pdm.Prelude.{
  Bool, true, false, ◌&&◌, Option, none, some, St, str_eq, if◌then◌else◌, pure,
}
use com_webos_service_pdm.Os.{Os, add, nfc_device, this_device}
use com_webos_service_pdm.DeviceClass.{
  Props, get_action, get_dev_path, get_interface_class, contains, DeviceActions, dev_add,
  dev_remove, find_device_action,
}
use com_webos_service_pdm.StorageDevice.State.{err_nothing}
use com_webos_service_pdm.StorageHandler.Requests.{CommandType, Reply}
use com_webos_service_pdm.StorageHandler.Power.{PluginEvent}
use com_webos_service_pdm.Devices
use com_webos_service_pdm.Devices.{Device, Handler, new_device, has_path, get_device, put_device}
use com_webos_service_pdm.Peripherals.{Flagged, set_speed, tell, push, remove_path, flag_removed}

abbrev self : Device → Device
self d = d

module _ (os : Os) where
  unfoldable pub set_device_info : Props → Device → Device
  set_device_info dev d =
      if str_eq (get_action dev) "add" then Devices.set_device_info os dev (set_speed dev d) else d

  add_path : Props → Option Device → Handler Device → Handler Device
  add_path dev none h =
      tell nfc_device add this_device (push (set_device_info dev (new_device "NFC" err_nothing)) h)
  add_path dev (some d) h = record h {
    devices = put_device (has_path self (get_dev_path dev)) (set_device_info dev d) h.devices;
  }

  process_action : Option DeviceActions → Props → Flagged Device → Flagged Device
  unfolding add_path
  process_action (some dev_add) dev f = record f {
    handler = add_path dev (get_device (has_path self (get_dev_path dev)) f.devices) f.handler;
  }
  process_action (some dev_remove) dev f =
      flag_removed f (remove_path nfc_device self (get_dev_path dev) f.handler)
  process_action _ dev f = f

  unfoldable pub process_nfc_device : Props → Flagged Device → Flagged Device
  unfolding process_action
  process_nfc_device dev = process_action (find_device_action (get_action dev)) dev

  -- The second part of HandlerEvent.
  process_class : Props → St (Flagged Device) Bool
  process_class dev f =
      if contains ":0b" (get_interface_class dev)
      then (true, process_nfc_device dev f)
      else (false, f)

  unfoldable pub handler_event : Props → St (Flagged Device) Bool
  unfolding process_class
  handler_event dev f =
      let f' = process_nfc_device dev f in
      if str_eq (get_action dev) "remove"
      then (if f'.device_removed then (true, f') else process_class dev f')
      else process_class dev f

  unfoldable pub handler_command : CommandType → St (Flagged Device) (Bool × Option Reply)
  handler_command c = pure (false, none)

  unfoldable pub handle_plugin_event : PluginEvent → St (Flagged Device) Bool
  handle_plugin_event e = pure true
