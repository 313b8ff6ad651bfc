-- ===== src/Peripherals/Gamepad.antt =====
-- devices/gamepad/GamepadDevice.cpp and handlers/gamepad/GamepadDeviceHandler.cpp: game pads.
use com_webos_service_pdm.Prelude.{
  String, Bool, true, false, Option, none, some, St, str_eq, if◌then◌else◌, pure,
}
use com_webos_service_pdm.Os.{Os, add, gamepad_device, no_device}
use com_webos_service_pdm.DeviceClass.{
  Props, get_prop, get_action, get_dev_path, get_id_model, DeviceActions, dev_add, dev_remove,
  find_device_action,
}
use com_webos_service_pdm.StorageDevice.State.{err_nothing}
use com_webos_service_pdm.StorageHandler.Requests.{CommandType, Reply}
use com_webos_service_pdm.Devices
use com_webos_service_pdm.Devices.{Device, Handler, new_device, has_path, get_device}
use com_webos_service_pdm.Peripherals.{Flagged, set_speed, tell, push, remove_path, flag_removed}

abbrev self : Device → Device
self d = d

abbrev pub get_gamepad_id : Props → String
get_gamepad_id = get_prop "ID_GAMEPAD"

module _ (os : Os) where
  unfoldable pub set_device_info : Props → Device → Device
  set_device_info dev d =
      if str_eq (get_action dev) "add"
      then record (Devices.set_device_info os dev (set_speed dev d)) {
        device_sub_type = get_id_model dev;
      }
      else d

  add_path : Props → Option Device → Handler Device → Handler Device
  add_path dev none h =
      tell gamepad_device add no_device
        (push (set_device_info dev (new_device "XPAD" err_nothing)) h)
  add_path dev (some d) h = h

  process_action : Option DeviceActions → Props → Flagged Device → Flagged Device
  unfolding add_path
  process_action (some dev_add) dev f = record f {
    handler = add_path dev (get_device (has_path self (get_dev_path dev)) f.devices) f.handler;
  }
  process_action (some dev_remove) dev f =
      flag_removed f (remove_path gamepad_device self (get_dev_path dev) f.handler)
  process_action _ dev f = f

  unfoldable pub process_gamepad_device : Props → Flagged Device → Flagged Device
  unfolding process_action
  process_gamepad_device dev = process_action (find_device_action (get_action dev)) dev

  -- The second part of HandlerEvent.
  process_class : Props → St (Flagged Device) Bool
  process_class dev f =
      if str_eq (get_gamepad_id dev) "1" then (true, process_gamepad_device dev f) else (false, f)

  unfoldable pub handler_event : Props → St (Flagged Device) Bool
  unfolding process_class
  handler_event dev f =
      let f' = process_gamepad_device dev (record f { device_removed = false }) in
      if str_eq (get_action dev) "remove"
      then (if f'.device_removed then (true, f') else process_class dev f')
      else process_class dev f

  unfoldable pub handler_command : CommandType → St (Flagged Device) (Bool × Option Reply)
  handler_command c = pure (false, none)
