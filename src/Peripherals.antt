-- ===== src/Peripherals.antt =====
-- The handlers of devices that are not mounted: handlers/hid, bluetooth, gamepad, nfc, sound, video
-- and cdc, with their devices, in a build without WEBOS_SESSION.
pub mod Hid
pub mod Bluetooth
pub mod Gamepad
pub mod Nfc
pub mod Apart
pub mod Sound
pub mod Video
pub mod Cdc
use com_webos_service_pdm.Prelude.{
  String, Bool, true, false, List, [], ◌∷◌, ◌++◌, Option, none, some, is_empty, if◌then◌else◌,
}
use com_webos_service_pdm.Utils.{to_int}
use com_webos_service_pdm.Os.{
  Os, Trace, EventType, remove, DeviceEventType, Target, no_device, this_device, notify_observers,
}
use com_webos_service_pdm.DeviceClass.{Props, get_speed}
use com_webos_service_pdm.StorageDevice.Info.{get_device_speed}
use com_webos_service_pdm.Devices
use com_webos_service_pdm.Devices.{Device, Handler, has_path, get_device, remove_device}

-- A handler with the flag m_deviceRemoved.
pub record Flagged (D : Type 0) : Type 0 where
  pub handler : Handler D
  pub open handler use *
  pub device_removed : Bool

unfoldable pub set_speed : Props → Device → Device
set_speed dev d = record d {
  dev_speed =
      if is_empty (get_speed dev) then d.dev_speed else get_device_speed (to_int (get_speed dev));
}

module _ {D : Type 0} where
  -- Notify behind a change of the list.
  abbrev pub tell : DeviceEventType → EventType → Target → Handler D → Handler D
  tell k e d h = record h { trace = (notify_observers k e d h.trace).1 }

  abbrev pub push : D → Handler D → Handler D
  push d h = record h { devices = h.devices ++ d ∷ [] }

  remove_found : DeviceEventType → (D → Bool) → Option D → Handler D → Option (Handler D)
  remove_found k test none h = none
  remove_found k test (some d) h =
      some (tell k remove this_device (record h { devices = remove_device test h.devices }))

  -- The branch of a "remove" event: the device of the path is removed; `none` where there is none.
  unfoldable pub remove_path :
      DeviceEventType → (D → Device) → String → Handler D → Option (Handler D)
  unfolding remove_found
  remove_path k device path h =
      remove_found k (has_path device path) (get_device (has_path device path) h.devices) h

  abbrev pub kept : Handler D → Option (Handler D) → Handler D
  kept h none = h
  kept h (some h') = h'

  -- The same with the flag, which is set where a device was removed.
  abbrev pub flag_removed : Flagged D → Option (Handler D) → Flagged D
  flag_removed f none = f
  flag_removed f (some h) = record { handler = h; device_removed = true }
