-- ===== src/Peripherals/Sound.antt =====
-- devices/sound/SoundDevice.cpp and handlers/sound/SoundDeviceHandler.cpp: sound cards.
pub mod Listed
use com_webos_service_pdm.Prelude.{
  ℕ, String, Char, code, Bool, true, false, not, ◌&&◌, ◌||◌, ◌==◌, List, [], ◌∷◌, ◌++◌, Option,
  none, some, ℤ, pos, St, append, str_eq, is_empty, if◌then◌else◌, pure,
}
use com_webos_service_pdm.Utils.{to_int}
use com_webos_service_pdm.Os.{Os, add, sound_device, no_device}
use com_webos_service_pdm.DeviceClass.{
  Props, get_prop, get_action, get_dev_type, get_dev_path, get_dev_name, get_usb_driver,
  get_subsystem_name, get_interface_class, contains, DeviceActions, dev_add, dev_remove, dev_change,
  find_device_action, get_device_action,
}
use com_webos_service_pdm.DeviceClass.Card.{get_card_number}
use com_webos_service_pdm.StorageDevice.State.{err_nothing}
use com_webos_service_pdm.StorageHandler.Requests.{CommandType, Reply}
use com_webos_service_pdm.StorageHandler.Power.{PluginEvent}
use com_webos_service_pdm.Devices
use com_webos_service_pdm.Devices.{
  Device, Handler, new_device, has_path, get_device, remove_device, put_device,
}
use com_webos_service_pdm.Peripherals.{Flagged, set_speed, tell, push, remove_path, flag_removed}

pub record SoundSubDevice : Type 0 where
  pub sub_path : String
  pub sub_type : String

pub record SoundDevice : Type 0 where
  pub device : Device
  pub open device use *
  pub built_in : Bool
  pub card_number : ℤ
  pub sound_device_name : String
  pub card_id : String
  pub sub_devices : List SoundSubDevice

unfoldable pub new_sound : SoundDevice
new_sound = record {
  device = new_device "SOUND" err_nothing;
  built_in = true;
  card_number = pos 0;
  sound_device_name = "";
  card_id = "";
  sub_devices = [];
}

abbrev pub device_of : SoundDevice → Device
device_of d = d.device

abbrev pub get_card_id : Props → String
get_card_id = get_prop "CARD_ID"

abbrev pub get_card_name : Props → String
get_card_name = get_prop "CARD_NAME"

-- The text, unless it is empty.
abbrev pub or_old : String → String → String
or_old new old = if is_empty new then old else new

ends_with : String → ℕ → Bool
ends_with String.[] c = false
ends_with (String.◌∷◌ d s) c = if is_empty s then code d == c else ends_with s c

unfoldable pub find_device_type : String → String
unfolding ends_with
find_device_type path =
    if contains "pcm" path
    then (if ends_with path b'c'
        then "capture"
        else if ends_with path b'p'
        then "playback"
        else "misc")
    else if contains "control" path
    then "control"
    else "misc"

abbrev pub sub_name : Props → String
sub_name dev = append "/dev/" (get_dev_name dev)

-- getSubDevice
abbrev pub has_sub : String → SoundSubDevice → Bool
has_sub path s = str_eq path s.sub_path

unfoldable pub sub_of : Props → SoundSubDevice
sub_of dev = record { sub_path = sub_name dev; sub_type = find_device_type (get_dev_path dev) }

-- updateInfo of the part that is there, or a new part.
add_sub : Props → Option SoundSubDevice → List SoundSubDevice → List SoundSubDevice
add_sub dev none ss = ss ++ sub_of dev ∷ []
add_sub dev (some s) ss = put_device (has_sub (sub_name dev)) (sub_of dev) ss

unfoldable pub update_subs : DeviceActions → Props → List SoundSubDevice → List SoundSubDevice
unfolding add_sub
update_subs dev_add dev ss =
    if is_empty (get_dev_name dev)
    then ss
    else add_sub dev (get_device (has_sub (sub_name dev)) ss) ss
update_subs dev_remove dev ss = remove_device (has_sub (sub_name dev)) ss
update_subs _ dev ss = ss

unfoldable pub update_device_info : Props → SoundDevice → SoundDevice
update_device_info dev d =
    if str_eq (get_subsystem_name dev) "sound"
    then record d {
      device = record d.device { device_sub_type = or_old (get_usb_driver dev) d.device_sub_type };
      built_in = not (contains "usb" (get_dev_path dev)) && d.built_in;
      sound_device_name = or_old (get_card_name dev) d.sound_device_name;
      card_number =
          if is_empty (get_card_number dev) then d.card_number else to_int (get_card_number dev);
      card_id = or_old (get_card_id dev) d.card_id;
      sub_devices = update_subs (get_device_action (get_action dev)) dev d.sub_devices;
    }
    else d

unfoldable pub is_sound_device : Props → Bool
is_sound_device dev =
    contains ":01" (get_interface_class dev) || str_eq (get_subsystem_name dev) "sound"

module _ (os : Os) where
  -- The path that is set first is set again by Device::setDeviceInfo.
  unfoldable pub set_device_info : Props → SoundDevice → SoundDevice
  set_device_info dev d = record d {
    device = Devices.set_device_info os dev (set_speed dev d.device);
  }

  put_updated : Props → SoundDevice → Handler SoundDevice → Handler SoundDevice
  put_updated dev d h = record h {
    devices =
        put_device (has_path device_of (get_dev_path dev)) (update_device_info dev d) h.devices;
  }

  add_path : Props → Option SoundDevice → Handler SoundDevice → Handler SoundDevice
  unfolding put_updated
  add_path dev none h =
      if contains "timer" (get_dev_name dev) then h else push (set_device_info dev new_sound) h
  add_path dev (some d) h =
      let updated = put_updated dev d h in
      if (update_device_info dev d).built_in
      then tell sound_device add no_device updated
      else updated

  change_path : Props → Option SoundDevice → Handler SoundDevice → Handler SoundDevice
  unfolding put_updated
  change_path dev none h = h
  change_path dev (some d) h = tell sound_device add no_device (put_updated dev d h)

  process_action : Option DeviceActions → Props → Flagged SoundDevice → Flagged SoundDevice
  unfolding add_path change_path
  process_action (some dev_add) dev f = record f {
    handler = add_path dev (get_device (has_path device_of (get_dev_path dev)) f.devices) f.handler;
  }
  process_action (some dev_remove) dev f =
      flag_removed f (remove_path sound_device device_of (get_dev_path dev) f.handler)
  process_action (some dev_change) dev f = record f {
    handler =
        change_path dev (get_device (has_path device_of (get_dev_path dev)) f.devices) f.handler;
  }
  process_action _ dev f = f

  unfoldable pub process_sound_device : Props → Flagged SoundDevice → Flagged SoundDevice
  unfolding process_action
  process_sound_device dev = process_action (find_device_action (get_action dev)) dev

  unfoldable pub handler_event : Props → St (Flagged SoundDevice) Bool
  handler_event dev f =
      if not (str_eq (get_action dev) "remove") && not (is_sound_device dev)
      then (false, f)
      else if str_eq (get_dev_type dev) "usb_device"
      then (false, process_sound_device dev f)
      else if str_eq (get_subsystem_name dev) "sound"
      then (true, process_sound_device dev f)
      else (false, f)

  unfoldable pub handler_command : CommandType → St (Flagged SoundDevice) (Bool × Option Reply)
  handler_command c = pure (false, none)

  unfoldable pub handle_plugin_event : PluginEvent → St (Flagged SoundDevice) Bool
  handle_plugin_event e = pure false
