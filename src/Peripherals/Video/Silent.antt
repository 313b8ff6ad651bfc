-- ===== src/Peripherals/Video/Silent.antt =====
-- Which cameras are told to the observers.
use com_webos_service_pdm.Prelude.{
  true, false, ◌≡◌, refl, [], ◌∷◌, ◌++◌, none, some, str_eq, is_empty,
}
use com_webos_service_pdm.Os.{Os}
use com_webos_service_pdm.DeviceClass.{
  Props, get_action, get_dev_type, get_dev_path, get_dev_name, get_subsystem_name,
  get_interface_class, contains, find_device_action, get_device_action,
}
use com_webos_service_pdm.Devices.{has_path, get_device, put_device}
use com_webos_service_pdm.Peripherals.Video
use com_webos_service_pdm.Peripherals.Video.{
  VideoDevice, VideoHandler, device_of, get_capabilities, has_sub, sub_name, sub_of,
  update_device_info, handler_event,
}

-- Where the camera of the path is known and has no part of this name, an "add" event of video4linux
-- whose capabilities contain capture beside others adds the part, as for any camera that captures,
-- but the observers are told nothing.
pub video_add-silent :
    (os : Os) (dev : Props) (v : VideoHandler) (d : VideoDevice)
    → v.is_camera_ready ≡ true
    → get_device (has_path device_of (get_dev_path dev)) v.devices ≡ some d
    → get_device (has_sub (sub_name dev)) d.sub_devices ≡ none
    → get_action dev ≡ "add"
    → contains ":0e" (get_interface_class dev) ≡ true
    → str_eq (get_dev_type dev) "usb_device" ≡ false
    → get_subsystem_name dev ≡ "video4linux"
    → is_empty (get_dev_name dev) ≡ false
    → contains ":capture:" (get_capabilities dev) ≡ true
    → str_eq (get_capabilities dev) ":capture:" ≡ false
    → let v' = (handler_event os dev v).1 in
      (v'.trace ≡ v.trace)
      × (v'.devices
          ≡ put_device (has_path device_of (get_dev_path dev)) (update_device_info dev d) v.devices)
      × ((update_device_info dev d).sub_devices ≡ d.sub_devices ++ sub_of dev ∷ [])
unfolding handler_event Video.process_video_device Video.process_action Video.add_path
    update_device_info Video.update_subs Video.add_sub find_device_action get_device_action
video_add-silent os dev v d ready e n a c t s m g k =
    simp (e, a, c, t, s, k, ready) (refl, refl, simp (g, m, n) refl)
