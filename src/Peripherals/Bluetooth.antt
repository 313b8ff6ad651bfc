-- ===== src/Peripherals/Bluetooth.antt =====
-- devices/bluetooth/BluetoothDevice.cpp and handlers/bluetooth/BluetoothDeviceHandler.cpp.
use com_webos_service_pdm.Prelude.{
  Bool, true, false, Option, none, some, str_eq, if◌then◌else◌, pure,
}
use com_webos_service_pdm.Os.{Os, add, bluetooth_device, no_device}
use com_webos_service_pdm.DeviceClass.{
  Props, get_action, get_dev_path, get_id_model, get_bluetooth_id, DeviceActions, dev_add,
  dev_remove, find_device_action,
}
use com_webos_service_pdm.StorageDevice.State.{err_nothing}
use com_webos_service_pdm.StorageHandler.Requests.{CommandType, Reply}
use com_webos_service_pdm.Devices
use com_webos_service_pdm.Devices.{
  Device, Handler, OnHandler, new_device, has_path, get_device, put_device,
}
use com_webos_service_pdm.Peripherals.{set_speed, tell, push, remove_path, kept}

abbrev self : Device → Device
self d = d

module _ (os : Os) where
  unfoldable pub set_device_info : Props → Device → Device
  set_device_info dev d =
      if str_eq (get_action dev) "add"
      then record (Devices.set_device_info os dev (set_speed dev d)) {
        device_sub_type = get_id_model dev;
      }
      else d

  add_path : Props → Option Device → Handler Device → Handler Device
  add_path dev none h =
      tell bluetooth_device add no_device
        (push (set_device_info dev (new_device "BLUETOOTH" err_nothing)) h)
  add_path dev (some d) h = record h {
    devices = put_device (has_path self (get_dev_path dev)) (set_device_info dev d) h.devices;
  }

  process_action : Option DeviceActions → Props → Handler Device → Handler Device
  unfolding add_path
  process_action (some dev_add) dev h =
      add_path dev (get_device (has_path self (get_dev_path dev)) h.devices) h
  process_action (some dev_remove) dev h =
      kept h (remove_path bluetooth_device self (get_dev_path dev) h)
  process_action _ dev h = h

  unfoldable pub process_bluetooth_device : Props → Handler Device → Handler Device
  unfolding process_action
  process_bluetooth_device dev = process_action (find_device_action (get_action dev)) dev

  unfoldable pub handler_event : Props → OnHandler Device Bool
  handler_event dev h =
      if str_eq (get_action dev) "remove"
      then (false, process_bluetooth_device dev h)
      else if str_eq (get_bluetooth_id dev) "1"
      then (true, process_bluetooth_device dev h)
      else (false, h)

  unfoldable pub handler_command : CommandType → OnHandler Device (Bool × Option Reply)
  handler_command c = pure (false, none)
