-- ===== src/Devices.antt =====
-- devices/Device.cpp: what all devices keep, in a build without WEBOS_SESSION, and the lists that
-- the handlers of devices other than storage devices keep, with the lookups of
-- inc/private/DeviceHandler.h.
pub mod Lists
pub mod Numbers
pub mod Serve
use com_webos_service_pdm.Prelude.{
  String, Bool, true, false, not, ◌||◌, List, [], ◌∷◌, Option, none, some, ℤ, pos, ◌==ℤ◌, St,
  str_eq, starts_with, is_empty, if◌then◌else◌,
}
use com_webos_service_pdm.Utils.{to_int}
use com_webos_service_pdm.Os.{
  Os, Trace, EventType, mount, umount, DeviceEventType, all_device, Target, Io, notify_observers,
}
use com_webos_service_pdm.DeviceClass.{
  Props, get_dev_path, get_usb_driver, get_id_serial_short, get_id_model, get_is_power_on_connect,
  get_dev_number,
}
use com_webos_service_pdm.StorageDevice.Info.{vendor_of}

pub record Device : Type 0 where
  pub device_type : String
  pub error_reason : String
  pub is_power_on_connect : Bool
  pub device_num : ℤ
  pub bus_num : ℤ
  pub device_name : String
  pub device_path : String
  pub serial_number : String
  pub vendor_name : String
  pub product_name : String
  pub dev_speed : String
  pub device_sub_type : String

-- The constructor.
unfoldable pub new_device : String → String → Device
new_device type reason = record {
  device_type = type;
  error_reason = reason;
  is_power_on_connect = false;
  device_num = pos 0;
  bus_num = pos 0;
  device_name = "";
  device_path = "";
  serial_number = "";
  vendor_name = "";
  product_name = "";
  dev_speed = "";
  device_sub_type = "";
}

-- Device::setDeviceInfo
unfoldable pub set_device_info : Os → Props → Device → Device
set_device_info os dev d = record d {
  serial_number = get_id_serial_short dev;
  device_path = get_dev_path dev;
  device_sub_type = get_usb_driver dev;
  product_name = get_id_model dev;
  is_power_on_connect =
      (not os.power_state || str_eq (get_is_power_on_connect dev) "true") || d.is_power_on_connect;
  vendor_name = vendor_of dev;
  device_num = if is_empty (get_dev_number dev) then d.device_num else to_int (get_dev_number dev);
}

-- The members of a handler that matter: its list of devices, with the calls that were made.
pub record Handler (D : Type 0) : Type 0 where
  pub devices : List D
  pub trace : Trace

abbrev pub OnHandler : Type 0 → Type 0 → Type 0
OnHandler D A = St (Handler D) A

-- The handlers' commandNotification: mounts are told under the kind for all devices.
abbrev told_kind : DeviceEventType → EventType → DeviceEventType
told_kind k mount = all_device
told_kind k umount = all_device
told_kind k _ = k

unfoldable pub command_notification : DeviceEventType → EventType → Target → Io (Unit {0})
command_notification k e d = notify_observers (told_kind k e) e d

module _ {D : Type 0} (device : D → Device) where
  -- The test of getDeviceWithNum, and that of getDeviceWithPath, which takes a device whose own
  -- path is a prefix of the path that is asked for.
  abbrev pub has_num : ℤ → D → Bool
  has_num n d = (device d).device_num ==ℤ n

  abbrev pub has_path : String → D → Bool
  has_path path d = starts_with path (device d).device_path

module _ {D : Type 0} where
  -- The loop of the lookups.
  unfoldable pub get_device : (D → Bool) → List D → Option D
  get_device test [] = none
  get_device test (d ∷ ds) = if test d then some d else get_device test ds

  -- sList.remove of the device that a lookup found: the devices are distinct objects.
  unfoldable pub remove_device : (D → Bool) → List D → List D
  remove_device test [] = []
  remove_device test (d ∷ ds) = let rest = d ∷ remove_device test ds in if test d then ds else rest

  -- What an operation on the device that a lookup found leaves behind.
  unfoldable pub put_device : (D → Bool) → D → List D → List D
  put_device test d' [] = []
  put_device test d' (d ∷ ds) =
      let rest = d ∷ put_device test d' ds in if test d then d' ∷ ds else rest

  -- A loop over the devices that keeps a result.
  unfoldable pub sweep :
      {A : Type 0} → (A → D → Trace → A × D × Trace) → A → List D → Trace → A × List D × Trace
  sweep body a [] t = (a, [], t)
  sweep body a (d ∷ ds) t =
      let (a', d', t') = body a d t in
      let (a'', ds', t'') = sweep body a' ds t' in (a'', d' ∷ ds', t'')
