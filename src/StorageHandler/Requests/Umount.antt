-- ===== src/StorageHandler/Requests/Umount.antt =====
-- The command that unmounts all drives.
use com_webos_service_pdm.Prelude.{
  Bool, true, false, ◌≡◌, refl, List, [], ◌∷◌, All, Bool-cases, inl, inr, ◌⊎◌, if◌then◌else◌, subst,
  is_nil, Option, some, if_cases,
}
use com_webos_service_pdm.Errors.{PdmDevStatus, success, is_success}
use com_webos_service_pdm.Os.{Os, Trace}
use com_webos_service_pdm.StorageDevice.State.{StorageDevice, Dev}
use com_webos_service_pdm.StorageDevice.Mount.{umount_all_partition}
use com_webos_service_pdm.StorageDevice.Mount.All.{umount_all_partition-success}
use com_webos_service_pdm.StorageHandler.State.{Handler, sweep_devices, on_devices}
use com_webos_service_pdm.StorageHandler.Requests.{
  umount_device, umount_devices, umount_all_drive, handler_command, umount_all_request, Reply,
  reply_of,
}

abbrev pub IsUnmounted : StorageDevice → Type 0
IsUnmounted d = All (λ p. p.is_mounted ≡ false) d.partitions

sweep_devices-umount_device :
    (os : Os) (a : PdmDevStatus) (ds : List StorageDevice) (t : Trace)
    → is_success (sweep_devices (umount_device os) a ds t).0 ≡ true
    → (is_success a ≡ true) × All IsUnmounted (sweep_devices (umount_device os) a ds t).1
unfolding sweep_devices
sweep_devices-umount_device os a [] t h = (h, tt)
sweep_devices-umount_device os a (d ∷ ds) t h =
    let s : Dev = record { device = d; trace = t } in
    let r = umount_all_partition os false s in
    let a' = if is_success r.0 then a else r.0 in
    let (one, rest) = sweep_devices-umount_device os a' ds r.1.trace h in
    let (ok, kept) = step r.0 a one in (kept, (umount_all_partition-success os false s ok, rest))
  where
    step :
        (r a : PdmDevStatus)
        → is_success (if is_success r then a else r) ≡ true
        → (is_success r ≡ true) × (is_success a ≡ true)
    step r a h = elim (Bool-cases (is_success r)) [
      | inl e ↦ (e, subst (λ b. is_success (if b then a else r) ≡ true) e h)
      | inr e ↦ absurd (cc (e, subst (λ b. is_success (if b then a else r) ≡ true) e h))
    ]

umount_devices-success :
    (os : Os) (h : Handler)
    → is_success (on_devices (umount_device os) success h).0 ≡ true
    → All IsUnmounted (on_devices (umount_device os) success h).1.storage_list
unfolding on_devices
umount_devices-success os h e = (sweep_devices-umount_device os success h.storage_list h.trace e).1

nil-All : (ds : List StorageDevice) → is_nil ds ≡ true → All IsUnmounted ds
nil-All [] e = tt
nil-All (d ∷ ds) e = absurd (cc e)

-- The command to unmount all drives replies with one status, and either that is an error or no
-- partition of any device counts as mounted.
pub umount_all_drive-IsUnmounted :
    (os : Os) (h : Handler)
    → let ((taken, reply), h') = handler_command os umount_all_drive h in
      (status : PdmDevStatus) × (reply ≡ some (reply_of status))
      × ((is_success status ≡ false) ⊎ All IsUnmounted h'.storage_list)
unfolding handler_command umount_all_request umount_devices
umount_all_drive-IsUnmounted os h =
    if_cases P (is_nil h.storage_list) (λ e. (success, refl, inr (nil-All h.storage_list e)))
      (λ e. asked (Bool-cases (is_success r.0)))
  where
    r : PdmDevStatus × Handler
    r = on_devices (umount_device os) success h

    P : (Bool × Option Reply) × Handler → Type 0
    P ((taken, reply), h') =
        (status : PdmDevStatus) × (reply ≡ some (reply_of status))
        × ((is_success status ≡ false) ⊎ All IsUnmounted h'.storage_list)

    asked :
        (is_success r.0 ≡ true) ⊎ (is_success r.0 ≡ false)
        → (status : PdmDevStatus) × (some (reply_of r.0) ≡ some (reply_of status))
          × ((is_success status ≡ false) ⊎ All IsUnmounted r.1.storage_list)
    asked (inl e) = (r.0, refl, inr (umount_devices-success os h e))
    asked (inr e) = (r.0, refl, inl e)
