-- ===== src/Peripherals/Video.antt =====
-- devices/video/VideoDevice.cpp and handlers/video/VideoDeviceHandler.cpp: cameras that stream.
pub mod Silent
use com_webos_service_pdm.Prelude.{
  String, Bool, true, false, not, ◌&&◌, ◌||◌, List, [], ◌∷◌, ◌++◌, Option, none, some, St, append,
  str_eq, is_empty, if◌then◌else◌, pure,
}
use com_webos_service_pdm.Os.{
  Os, add, remove, video_device, unknown_device, DeviceEventType, no_device,
}
use com_webos_service_pdm.DeviceClass.{
  Props, get_prop, get_action, get_dev_type, get_dev_path, get_dev_name, get_usb_driver,
  get_subsystem_name, get_interface_class, contains, DeviceActions, dev_add, dev_remove,
  find_device_action, get_device_action,
}
use com_webos_service_pdm.StorageDevice.State.{err_nothing}
use com_webos_service_pdm.StorageHandler.Requests.{CommandType, Reply}
use com_webos_service_pdm.Devices
use com_webos_service_pdm.Devices.{
  Device, Handler, new_device, has_path, get_device, remove_device, put_device,
}
use com_webos_service_pdm.Peripherals.{Flagged, set_speed, tell, push, remove_path, flag_removed}

pub record VideoSubDevice : Type 0 where
  pub sub_path : String
  pub capabilities : String
  pub sub_product : String
  pub version : String

pub record VideoDevice : Type 0 where
  pub device : Device
  pub open device use *
  pub subsystem : String
  pub kernel : String
  pub sub_devices : List VideoSubDevice

unfoldable pub new_video : VideoDevice
new_video = record {
  device = new_device "CAM" err_nothing;
  subsystem = "";
  kernel = "";
  sub_devices = [];
}

abbrev pub device_of : VideoDevice → Device
device_of d = d.device

abbrev pub get_capabilities : Props → String
get_capabilities = get_prop "ID_V4L_CAPABILITIES"

abbrev pub get_product_name : Props → String
get_product_name = get_prop "ID_V4L_PRODUCT"

abbrev pub get_version : Props → String
get_version = get_prop "ID_V4L_VERSION"

-- The text, unless it is empty.
abbrev pub or_old : String → String → String
or_old new old = if is_empty new then old else new

abbrev pub sub_name : Props → String
sub_name dev = append "/dev/" (get_dev_name dev)

-- getSubDevice
abbrev pub has_sub : String → VideoSubDevice → Bool
has_sub path s = str_eq s.sub_path path

unfoldable pub sub_of : Props → VideoSubDevice
sub_of dev = record {
  sub_path = sub_name dev;
  capabilities = get_capabilities dev;
  sub_product = get_product_name dev;
  version = get_version dev;
}

-- updateInfo of the part that is there, or a new part.
add_sub : Props → Option VideoSubDevice → List VideoSubDevice → List VideoSubDevice
add_sub dev none ss = ss ++ sub_of dev ∷ []
add_sub dev (some s) ss = put_device (has_sub (sub_name dev)) (sub_of dev) ss

unfoldable pub update_subs : DeviceActions → Props → List VideoSubDevice → List VideoSubDevice
unfolding add_sub
update_subs dev_add dev ss =
    if is_empty (get_dev_name dev)
    then ss
    else add_sub dev (get_device (has_sub (sub_name dev)) ss) ss
update_subs dev_remove dev ss = remove_device (has_sub (sub_name dev)) ss
update_subs _ dev ss = ss

unfoldable pub update_device_info : Props → VideoDevice → VideoDevice
update_device_info dev d =
    if str_eq (get_subsystem_name dev) "video4linux" && contains ":capture:" (get_capabilities dev)
    then record d {
      device = record d.device { device_sub_type = or_old (get_usb_driver dev) d.device_sub_type };
      subsystem = or_old (get_subsystem_name dev) d.subsystem;
      kernel = if is_empty (get_dev_name dev) then d.kernel else sub_name dev;
      sub_devices = update_subs (get_device_action (get_action dev)) dev d.sub_devices;
    }
    else d

-- The handler, with the flag mIsCameraReady.
pub record VideoHandler : Type 0 where
  pub flagged : Flagged VideoDevice
  pub open flagged use *
  pub is_camera_ready : Bool

-- The camera states that HandlePluginEvent tells apart; 3000 stands for none, off, both and not
-- supported.
pub data CameraEvent : Type 0 where
  cam_none cam_ready cam_builtin other_camera : CameraEvent

unfoldable pub handle_plugin_event : CameraEvent → St VideoHandler Bool
handle_plugin_event cam_none v = (false, record v { is_camera_ready = false })
handle_plugin_event cam_ready v = (false, record v { is_camera_ready = true })
handle_plugin_event cam_builtin v = (false, record v { is_camera_ready = true })
handle_plugin_event other_camera v = (false, v)

-- The kind of device under which a camera is told.
abbrev pub told_kind : VideoHandler → DeviceEventType
told_kind v = if v.is_camera_ready then video_device else unknown_device

abbrev pub set_list : Handler VideoDevice → VideoHandler → VideoHandler
set_list h v = record v { flagged = record v.flagged { handler = h } }

module _ (os : Os) where
  typed_device : Bool → Device → Device
  typed_device ready d = if ready then d else record d { device_type = "UNKNOWN" }

  unfoldable pub set_device_info : Props → Bool → VideoDevice → VideoDevice
  unfolding typed_device
  set_device_info dev ready d =
      if str_eq (get_action dev) "add"
      then record d {
        device = Devices.set_device_info os dev (typed_device ready (set_speed dev d.device));
      }
      else d

  add_path : Props → Option VideoDevice → VideoHandler → VideoHandler
  add_path dev none v =
      set_list (push (set_device_info dev v.is_camera_ready new_video) v.handler) v
  add_path dev (some d) v =
      let updated : Handler VideoDevice = record v.handler {
        devices =
            put_device (has_path device_of (get_dev_path dev)) (update_device_info dev d) v.devices;
      } in
      let captures =
        str_eq (get_subsystem_name dev) "video4linux"
        && str_eq (get_capabilities dev) ":capture:" in
      if not v.is_camera_ready || captures
      then set_list (tell (told_kind v) add no_device updated) v
      else set_list updated v

  process_action : Option DeviceActions → Props → VideoHandler → VideoHandler
  unfolding add_path
  process_action (some dev_add) dev v =
      add_path dev (get_device (has_path device_of (get_dev_path dev)) v.devices) v
  process_action (some dev_remove) dev v = record v {
    flagged =
        flag_removed v.flagged (remove_path (told_kind v) device_of (get_dev_path dev) v.handler);
  }
  process_action _ dev v = v

  unfoldable pub process_video_device : Props → VideoHandler → VideoHandler
  unfolding process_action
  process_video_device dev = process_action (find_device_action (get_action dev)) dev

  unfoldable pub handler_event : Props → St VideoHandler Bool
  handler_event dev v =
      if not (contains ":0e" (get_interface_class dev)) && not (str_eq (get_action dev) "remove")
      then (false, v)
      else if str_eq (get_dev_type dev) "usb_device"
      then (false, process_video_device dev v)
      else if str_eq (get_subsystem_name dev) "video4linux"
      then (true, process_video_device dev v)
      else (false, v)

  unfoldable pub handler_command : CommandType → St VideoHandler (Bool × Option Reply)
  handler_command c = pure (false, none)
