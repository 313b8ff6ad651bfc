-- ===== src/StorageHandler/Events/Bound.antt =====
-- The number of devices that events, commands and power events leave in the list of the handler.
use com_webos_service_pdm.Prelude.{
  ◌≤◌, ◌&&◌, suc, Bool, ◌≡◌, refl, List, [], ◌∷◌, Option, none, some, Bool-cases, inl, inr, length,
  length-append, leb, arith, if_cases, str_eq, is_empty, not,
}
use com_webos_service_pdm.Os.{Os, Trace}
use com_webos_service_pdm.DeviceClass.{
  Props, DeviceActions, dev_add, dev_remove, dev_change, dev_bind, dev_unknown, find_device_action,
  get_action, get_dev_path, get_dev_type, get_dev_name, get_subsystem_name,
}
use com_webos_service_pdm.StorageDevice.State.{StorageDevice, OnDev}
use com_webos_service_pdm.StorageHandler.State.{Handler, get_device, has_path, has_name, on_device}
use com_webos_service_pdm.StorageHandler.State.Lookup.{at_device-length}
use com_webos_service_pdm.StorageHandler.Events.{
  create_storage_device, add_device, check_storage_device, update_found, update_named, is_missing,
  process_storage_device, process_action, is_storage_device, remove_at, remove_device, remove_usb,
  remove_disk, delete_storage_device, handler_event,
}

-- The list is within the limit of the handler.
pub record IsBounded (h : Handler) : Type 0 where
  pub bounded : length h.storage_list ≤ h.max_storage_devices

-- An operation keeps the limit as it is, and the list within it.
abbrev pub Keeps : Handler → Handler → Type 0
Keeps h h' = (h'.max_storage_devices ≡ h.max_storage_devices) × (IsBounded h → IsBounded h')

pub Keeps-refl : (h : Handler) → Keeps h h
Keeps-refl h = (refl, λ b. b)

pub on_device-Keeps :
    {A : Type 0} (default : A) (test : StorageDevice → Bool) (m : OnDev A) (h : Handler)
    → Keeps h (on_device default test m h).1
unfolding on_device
on_device-Keeps default test m h = (
  refl,
  λ b. record { bounded = rw (at_device-length default test m h.storage_list h.trace) b.bounded },
)

create_storage_device-Keeps :
    (os : Os) (dev : Props) (other : Option StorageDevice) (h : Handler)
    → Keeps h (create_storage_device os dev other h).1
unfolding create_storage_device add_device
create_storage_device-Keeps os dev other h =
    elim (Bool-cases (leb h.max_storage_devices (length h.storage_list))) [
      | inl e ↦ rw e (refl, λ b. record { bounded = b.bounded })
      | inr e ↦
          rw e (
            refl,
            λ b. record { bounded = rw (length-append h.storage_list _) (ground (arith, e)) },
          )
    ]

update_found-Keeps :
    (os : Os) (dev : Props) (d : Option StorageDevice) (h : Handler)
    → Keeps h (update_found os dev d h).1
unfolding update_found
update_found-Keeps os dev none h = Keeps-refl h
update_found-Keeps os dev (some d) h =
    if_cases (λ (r : Unit {0} × Handler). Keeps h r.1) (is_empty d.device_name)
      (λ e. on_device-Keeps _ _ _ h)
      (λ e. named (get_device (has_name (get_dev_name dev)) h.storage_list))
  where
    named : (o : Option StorageDevice) → Keeps h (update_named os dev d o h).1
    named none = create_storage_device-Keeps os dev (some d) h
    named (some e) = on_device-Keeps _ _ _ h

check_storage_device-Keeps :
    (os : Os) (dev : Props) (h : Handler) → Keeps h (check_storage_device os dev h).1
unfolding check_storage_device
check_storage_device-Keeps os dev h =
    let by_path = get_device (has_path (get_dev_path dev)) h.storage_list in
    if_cases (λ (r : Unit {0} × Handler). Keeps h r.1)
      (str_eq (get_dev_type dev) "usb_device" && is_missing os by_path)
      (λ e. create_storage_device-Keeps os dev none h) (λ e. update_found-Keeps os dev by_path h)

process_action-Keeps :
    (os : Os) (a : Option DeviceActions) (dev : Props) (h : Handler)
    → Keeps h (process_action os a dev h).1
unfolding process_action
process_action-Keeps os none dev h = Keeps-refl h
process_action-Keeps os (some dev_add) dev h = check_storage_device-Keeps os dev h
process_action-Keeps os (some dev_change) dev h = check_storage_device-Keeps os dev h
process_action-Keeps os (some dev_remove) dev h = Keeps-refl h
process_action-Keeps os (some dev_bind) dev h = Keeps-refl h
process_action-Keeps os (some dev_unknown) dev h = Keeps-refl h

process_storage_device-Keeps :
    (os : Os) (dev : Props) (h : Handler) → Keeps h (process_storage_device os dev h).1
unfolding process_storage_device
process_storage_device-Keeps os dev h =
    process_action-Keeps os (find_device_action (get_action dev)) dev h

remove_at-length :
    (os : Os) (test : StorageDevice → Bool) (ds : List StorageDevice) (t : Trace)
    → length (remove_at os test ds t).0 ≤ length ds
unfolding remove_at
remove_at-length os test [] t = ground arith
remove_at-length os test (d ∷ ds) t =
    if_cases (λ (r : List StorageDevice × Trace). length r.0 ≤ suc (length ds)) (test d)
      (λ e. omega arith) (λ e. omega (arith, remove_at-length os test ds t))

remove_device-Keeps :
    (os : Os) (test : StorageDevice → Bool) (h : Handler) → Keeps h (remove_device os test h).1
unfolding remove_device
remove_device-Keeps os test h = (
  refl,
  λ b. record {
    bounded = omega (arith, remove_at-length os test h.storage_list h.trace, b.bounded);
  },
)

delete_storage_device-Keeps :
    (os : Os) (dev : Props) (h : Handler) → Keeps h (delete_storage_device os dev h).1
unfolding delete_storage_device remove_usb remove_disk
delete_storage_device-Keeps os dev h =
    if_cases P (str_eq (get_dev_type dev) "usb_device")
      (λ e. usb (get_device (has_path (get_dev_path dev)) h.storage_list))
      (λ e.
        if_cases P (str_eq (get_dev_type dev) "disk")
          (λ e. disk (get_device (has_name (get_dev_name dev)) h.storage_list)) (λ e. Keeps-refl h))
  where
    P : Bool × Handler → Type 0
    P r = Keeps h r.1

    usb : (o : Option StorageDevice) → Keeps h (remove_usb os dev o h).1
    usb none = Keeps-refl h
    usb (some d) = remove_device-Keeps os _ h

    disk : (o : Option StorageDevice) → Keeps h (remove_disk os dev o h).1
    disk none = Keeps-refl h
    disk (some d) =
        if_cases P (not d.is_extra_sd_card) (λ e. Keeps-refl h) (λ e. remove_device-Keeps os _ h)

pub handler_event-Keeps : (os : Os) (dev : Props) (h : Handler) → Keeps h (handler_event os dev h).1
unfolding handler_event
handler_event-Keeps os dev h =
    if_cases P (str_eq (get_action dev) "remove") (λ e. delete_storage_device-Keeps os dev h)
      (λ e.
        if_cases P (not (is_storage_device dev)) (λ e. Keeps-refl h)
          (λ e.
            if_cases P (str_eq (get_dev_type dev) "usb_device")
              (λ e. process_storage_device-Keeps os dev h)
              (λ e.
                if_cases P (str_eq (get_subsystem_name dev) "block")
                  (λ e. process_storage_device-Keeps os dev h) (λ e. Keeps-refl h))))
  where
    P : Bool × Handler → Type 0
    P r = Keeps h r.1
