-- ===== src/Media/Ptp/Root.antt =====
-- Events of cameras that carry too little to mount the device.
use com_webos_service_pdm.Prelude.{arith, true, false, ◌≡◌, refl, ap, ◌∙◌, ◌∷◌, is_empty, str_eq}
use com_webos_service_pdm.Os.{Os, Trace, Call, remove_dir_recursive}
use com_webos_service_pdm.DeviceClass.{
  Props, get_action, get_media_player_id, get_dev_type, get_interface_class, get_subsystem_name,
  contains, find_device_action,
}
use com_webos_service_pdm.Devices
use com_webos_service_pdm.Devices.{Handler}
use com_webos_service_pdm.Media
use com_webos_service_pdm.Media.Ptp
use com_webos_service_pdm.Media.Ptp.{PtpDevice}

removes :
    (os : Os) (d : PtpDevice) (t : Trace)
    → d.storage.is_mounted ≡ false
    → Ptp.on_device_remove os d t ≡ (remove_dir_recursive os d.storage.root_path t).1
unfolding Ptp.on_device_remove Ptp.ptp_umount Ptp.unmount_device
removes os d t m = ground arith

removes_root :
    (os : Os)
    → is_empty os.root_path ≡ false
    → (t : Trace) → (remove_dir_recursive os os.root_path t).1 ≡ Call.remove_all os.root_path ∷ t
unfolding remove_dir_recursive
removes_root os root t = rw root refl

ptp_add :
    (os : Os) (dev : Props) (h : Handler PtpDevice)
    → is_empty os.root_path ≡ false
    → str_eq (get_dev_type dev) "usb_device" ≡ false
    → (Ptp.add_device os dev h).1 ≡ record h { trace = Call.remove_all os.root_path ∷ h.trace }
unfolding Ptp.add_device Ptp.set_device_info Ptp.new_ptp Media.new_storage Devices.new_device
ptp_add os dev h root e = rw e (
    ap (λ t. record h { trace = t })
      (removes os (Ptp.new_ptp os) h.trace refl ∙ removes_root os root h.trace))

-- An "add" event of a camera in the subsystem usb that is of another type than usb_device and is no
-- media player, where the common root path is not empty, is taken, keeps no device, and removes the
-- common root path recursively.
pub ptp_event-root :
    (os : Os) (dev : Props) (h : Handler PtpDevice)
    → is_empty os.root_path ≡ false
    → get_action dev ≡ "add"
    → contains ":06" (get_interface_class dev) ≡ true
    → str_eq (get_media_player_id dev) "1" ≡ false
    → str_eq (get_dev_type dev) "usb_device" ≡ false
    → get_subsystem_name dev ≡ "usb"
    → Ptp.handler_event os dev h
      ≡ (true, record h { trace = Call.remove_all os.root_path ∷ h.trace })
unfolding Ptp.handler_event Ptp.process_ptp_device Ptp.process_action find_device_action
ptp_event-root os dev h root a c m e s = rw (a, c, m, e, s, ptp_add os dev h root e) refl
