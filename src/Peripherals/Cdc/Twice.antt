-- ===== src/Peripherals/Cdc/Twice.antt =====
-- A modem dongle in the handler's list, to the end of the handler.
use com_webos_service_pdm.Prelude.{
  arith, ℕ, Bool, true, ◌||◌, ◌≡◌, refl, List, [], ◌∷◌, ◌++◌, none, str_eq, length,
}
use com_webos_service_pdm.Os.{Os}
use com_webos_service_pdm.DeviceClass.{
  Props, get_action, get_dev_path, get_dev_type, get_interface_class, contains, find_device_action,
}
use com_webos_service_pdm.Peripherals.Cdc
use com_webos_service_pdm.Peripherals.Cdc.{
  CdcHandler, get_usb_modem_id, get_usb_serial_id, get_device, handler_event, destroy,
}

delete_all-append :
    (is js deleted : List ℕ)
    → Cdc.delete_all (is ++ js) deleted ≡ Cdc.delete_all js (Cdc.delete_all is deleted)
unfolding Cdc.delete_all
delete_all-append [] js deleted = refl
delete_all-append (i ∷ is) js deleted = delete_all-append is js (i ∷ deleted)

or_true : (a b c : Bool) → (a || (b || (c || true))) ≡ true
or_true a b c = ground arith

modem-identified :
    (os : Os) (dev : Props) (h : CdcHandler)
    → get_usb_modem_id dev ≡ "1"
    → h.is_dongle_supported ≡ true
    → Cdc.identify_cdc_device os dev h ≡ true
unfolding Cdc.identify_cdc_device
modem-identified os dev h m s =
    simp (m, s)
      (or_true (contains ":02" (get_interface_class dev)) (str_eq (get_usb_serial_id dev) "1")
        (contains ":0206" (get_interface_class dev)))

-- A new modem stands in the list twice behind its event.
modem-listed :
    (os : Os) (dev : Props) (h : CdcHandler)
    → get_action dev ≡ "add"
    → get_usb_modem_id dev ≡ "1"
    → get_dev_type dev ≡ "usb_device"
    → h.is_dongle_supported ≡ true
    → get_device (get_dev_path dev) h.objects h.list ≡ none
    → let h' = (handler_event os dev h).1 in
      let n = length h.objects in
      (h'.list ≡ (h.list ++ n ∷ []) ++ n ∷ []) × (h'.deleted ≡ h.deleted)
unfolding handler_event Cdc.process_identified Cdc.process_cdc_device Cdc.process_action
    Cdc.add_path Cdc.new_path find_device_action
modem-listed os dev h a m t s e = simp (a, modem-identified os dev h m s, t, e, m) (refl, refl)

-- An "add" event of a modem dongle that is supported and not yet known puts its pointer into the
-- list twice, so the destructor deletes the same device twice.
pub cdc_modem-deleted_twice :
    (os : Os) (dev : Props) (h : CdcHandler)
    → get_action dev ≡ "add"
    → get_usb_modem_id dev ≡ "1"
    → get_dev_type dev ≡ "usb_device"
    → h.is_dongle_supported ≡ true
    → get_device (get_dev_path dev) h.objects h.list ≡ none
    → let n = length h.objects in
      (destroy (handler_event os dev h).1).deleted ≡ n ∷ n ∷ (destroy h).deleted
unfolding destroy Cdc.delete_all
cdc_modem-deleted_twice os dev h a m t s e =
    let (listed, kept) = modem-listed os dev h a m t s e in
    let n = length h.objects in
    rw
      (
        listed,
        kept,
        delete_all-append (h.list ++ n ∷ []) (n ∷ []) h.deleted,
        delete_all-append h.list (n ∷ []) h.deleted,
      )
      refl
