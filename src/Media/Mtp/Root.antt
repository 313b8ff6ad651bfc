-- ===== src/Media/Mtp/Root.antt =====
-- Events of media players that carry too little to mount the device.
use com_webos_service_pdm.Prelude.{
  arith, true, false, ◌≡◌, refl, ap, ◌∙◌, ◌∷◌, Bool-cases, inl, inr, is_empty, str_eq,
}
use com_webos_service_pdm.Os.{
  Os, Trace, Call, remove_before_mount, mtp_device, this_device, remove_dir_recursive,
}
use com_webos_service_pdm.DeviceClass.{
  Props, get_action, get_media_player_id, get_dev_type, get_dev_name, find_device_action,
}
use com_webos_service_pdm.StorageDevice.State.{err_ejected}
use com_webos_service_pdm.Devices
use com_webos_service_pdm.Devices.{Handler}
use com_webos_service_pdm.Media
use com_webos_service_pdm.Media.{Storage}
use com_webos_service_pdm.Media.Mtp

module _ (os : Os) (root : is_empty os.root_path ≡ false) where
  removes :
      (d : Storage) (t : Trace)
      → d.is_mounted ≡ false
      → str_eq d.error_reason err_ejected ≡ false
      → Mtp.on_device_remove os d t
        ≡ (remove_dir_recursive os d.root_path
            (Call.observers mtp_device remove_before_mount this_device ∷ t)).1
  unfolding Mtp.on_device_remove Mtp.tell_unmounted Mtp.mtp_umount Devices.command_notification
  removes d t m e = ground arith

  removes_root :
      (t : Trace) → (remove_dir_recursive os os.root_path t).1 ≡ Call.remove_all os.root_path ∷ t
  unfolding remove_dir_recursive
  removes_root t = rw root refl

  mtp_add :
      (dev : Props) (h : Handler Storage)
      → is_empty (get_dev_name dev) ≡ false
      → is_empty (Mtp.get_dev_links dev) ≡ true
      → (Mtp.add_device os dev h).1 ≡ record h {
        trace =
            Call.remove_all os.root_path
            ∷ Call.observers mtp_device remove_before_mount this_device
            ∷ h.trace;
      }
  unfolding Mtp.add_device Mtp.set_device_info Mtp.set_names Mtp.set_speed Mtp.new_mtp
      Media.new_storage Mtp.mtp_mount Devices.new_device Devices.set_device_info
  mtp_add dev h n l = elim (Bool-cases (str_eq (get_dev_type dev) "usb_device")) [
    | inl e ↦
        rw (n, e, l)
          (ap (λ t. record h { trace = t }) (removes _ h.trace refl refl ∙ removes_root _))
    | inr e ↦
        rw (n, e) (ap (λ t. record h { trace = t }) (removes _ h.trace refl refl ∙ removes_root _))
  ]

-- An "add" event of a media player that has a device name but no links, where the common root path
-- is not empty, keeps no device, tells the observers of a removal before the mount, and removes the
-- common root path recursively.
pub mtp_event-root :
    (os : Os) (dev : Props) (h : Handler Storage)
    → is_empty os.root_path ≡ false
    → get_action dev ≡ "add"
    → get_media_player_id dev ≡ "1"
    → is_empty (get_dev_name dev) ≡ false
    → is_empty (Mtp.get_dev_links dev) ≡ true
    → Mtp.handler_event os dev h ≡ (
      false,
      record h {
        trace =
            Call.remove_all os.root_path
            ∷ Call.observers mtp_device remove_before_mount this_device
            ∷ h.trace;
      },
    )
unfolding Mtp.handler_event Mtp.process_mtp_device Mtp.process_action find_device_action
mtp_event-root os dev h root a m n l = rw (a, m, mtp_add os root dev h n l) refl
