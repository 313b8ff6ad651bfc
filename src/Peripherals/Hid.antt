-- ===== src/Peripherals/Hid.antt =====
-- devices/hid/HIDDevice.cpp and handlers/hid/HIDDeviceHandler.cpp: keyboards and mice.
use com_webos_service_pdm.Prelude.{
  String, Bool, true, false, not, ◌&&◌, Option, none, some, St, str_eq, if◌then◌else◌, pure,
}
use com_webos_service_pdm.Os.{
  Os, Trace, Io, EventType, add, hid_device, Target, no_device, notify_observers,
}
use com_webos_service_pdm.DeviceClass.{
  Props, get_prop, get_action, get_dev_type, get_dev_path, get_subsystem_name, get_interface_class,
  contains, DeviceActions, dev_add, dev_remove, find_device_action,
}
use com_webos_service_pdm.StorageDevice.State.{err_nothing}
use com_webos_service_pdm.StorageHandler.Requests.{CommandType, Reply}
use com_webos_service_pdm.StorageHandler.Power.{PluginEvent}
use com_webos_service_pdm.Devices
use com_webos_service_pdm.Devices.{Device, Handler, new_device, has_path, get_device, put_device}
use com_webos_service_pdm.Peripherals.{Flagged, set_speed, push, remove_path, flag_removed}

abbrev self : Device → Device
self d = d

abbrev pub get_processed : Props → String
get_processed = get_prop "PROCESSED"

unfoldable pub command_notification : EventType → Target → Io (Unit {0})
command_notification e d = notify_observers hid_device e d

module _ (os : Os) where
  added_info : Props → Device → Trace → Device × Trace
  added_info dev d t =
      let base = Devices.set_device_info os dev d in
      if str_eq (get_dev_type dev) "usb_device"
      then (set_speed dev base, t)
      else if str_eq (get_processed dev) "1"
      then (base, (command_notification add no_device t).1)
      else (base, t)

  unfoldable pub set_device_info : Props → Device → Trace → Device × Trace
  unfolding added_info
  set_device_info dev d t = if str_eq (get_action dev) "add" then added_info dev d t else (d, t)

  add_path : Props → Option Device → Handler Device → Handler Device
  add_path dev none h =
      let (d, t) = set_device_info dev (new_device "HID" err_nothing) h.trace in
      push d (record h { trace = t })
  add_path dev (some d) h =
      let (d', t) = set_device_info dev d h.trace in
      record { devices = put_device (has_path self (get_dev_path dev)) d' h.devices; trace = t }

  process_action : Option DeviceActions → Props → Flagged Device → Flagged Device
  unfolding add_path
  process_action (some dev_add) dev f = record f {
    handler = add_path dev (get_device (has_path self (get_dev_path dev)) f.devices) f.handler;
  }
  process_action (some dev_remove) dev f =
      flag_removed f (remove_path hid_device self (get_dev_path dev) f.handler)
  process_action _ dev f = f

  unfoldable pub process_hid_device : Props → Flagged Device → Flagged Device
  unfolding process_action
  process_hid_device dev = process_action (find_device_action (get_action dev)) dev

  -- The second part of HandlerEvent.
  process_class : Props → St (Flagged Device) Bool
  process_class dev f =
      let class = contains ":03" (get_interface_class dev) in
      if not class
      then (false, f)
      else if str_eq (get_dev_type dev) "usb_device"
      then (false, process_hid_device dev f)
      else if str_eq (get_subsystem_name dev) "input" && class
      then (true, process_hid_device dev f)
      else (false, f)

  unfoldable pub handler_event : Props → St (Flagged Device) Bool
  unfolding process_class
  handler_event dev f =
      let f' = process_hid_device dev (record f { device_removed = false }) in
      if str_eq (get_action dev) "remove"
      then (if f'.device_removed then (true, f') else process_class dev f')
      else process_class dev f

  unfoldable pub handler_command : CommandType → St (Flagged Device) (Bool × Option Reply)
  handler_command c = pure (false, none)

  unfoldable pub handle_plugin_event : PluginEvent → St (Flagged Device) Bool
  handle_plugin_event e = pure false
