-- ===== src/Media/Ptp/Eject.antt =====
-- Ejecting a camera.
use com_webos_service_pdm.Prelude.{
  Bool, true, false, ◌≡◌, refl, ◌⊎◌, inl, inr, Option, none, some, ℤ, pos, ◌==ℤ◌, Bool-cases,
}
use com_webos_service_pdm.Errors.{PdmDevStatus, success, eject_fail, device_not_found}
use com_webos_service_pdm.Os.{Os, Trace}
use com_webos_service_pdm.Partition.{umount_ok, umount_not_ok}
use com_webos_service_pdm.StorageDevice.State.{err_ejected}
use com_webos_service_pdm.StorageHandler.Requests.{Reply, reply_of}
use com_webos_service_pdm.Devices
use com_webos_service_pdm.Devices.{Handler, get_device, put_device}
use com_webos_service_pdm.Media.{fusermount}
use com_webos_service_pdm.Media.Ptp
use com_webos_service_pdm.Media.Ptp.{PtpDevice, ptp_umount, eject_device, eject_request}

-- A mounted device is ejected and unmounted where fusermount succeeds; otherwise its status says
-- that it is not unmounted.
pub record IsEjected (os : Os) (d : PtpDevice) (t : Trace) (status : PdmDevStatus) (d' : PtpDevice)
    : Type 0 where
  pub outcome :
      ((status ≡ success)
        × (d.storage.is_mounted ≡ true)
        × (((fusermount os d.storage.mount_name t).0 ==ℤ pos 0) ≡ true)
        × (d' ≡ record d {
          storage = record d.storage {
            device = record d.storage.device { error_reason = err_ejected };
            is_mounted = false;
          };
          drive_status = umount_ok;
        }))
      ⊎ ((status ≡ eject_fail)
          × ((d.storage.is_mounted ≡ false)
              ⊎ (((fusermount os d.storage.mount_name t).0 ==ℤ pos 0) ≡ false))
          × (d' ≡ record d { drive_status = umount_not_ok }))

eject_device-IsEjected :
    (os : Os) (d : PtpDevice) (t : Trace) → let r = eject_device os d t in IsEjected os d t r.0 r.1
unfolding eject_device ptp_umount Ptp.unmount_device
eject_device-IsEjected os d t = elim (Bool-cases d.storage.is_mounted) [
  | inr m ↦ simp m (record { outcome = inr (refl, inl m, refl) })
  | inl m ↦ elim (Bool-cases ((fusermount os d.storage.mount_name t).0 ==ℤ pos 0)) [
    | inl e ↦ simp (m, e) (record { outcome = inl (refl, m, e, refl) })
    | inr e ↦ simp (m, e) (record { outcome = inr (refl, inr e, refl) })
  ]
]

-- The reply and the state that an eject command leaves: `o` is the device of the number.
pub record IsAnswered (os : Os) (d : PtpDevice) (test : PtpDevice → Bool) (h : Handler PtpDevice)
    (r : Bool × Option Reply) (h' : Handler PtpDevice) : Type 0 where
  pub status : PdmDevStatus
  pub device : PtpDevice
  pub ejected : IsEjected os d h.trace status device
  pub replied : r ≡ (true, some (reply_of status))
  pub stored : h'.devices ≡ put_device test device h.devices

abbrev pub Answers :
    Os
    → (PtpDevice → Bool)
    → Option PtpDevice
    → Handler PtpDevice
    → (Bool × Option Reply) × Handler PtpDevice
    → Type 0
Answers os test none h r = r ≡ ((false, some (reply_of device_not_found)), h)
Answers os test (some d) h (r, h') = IsAnswered os d test h r h'

abbrev pub has_num : ℤ → PtpDevice → Bool
has_num = Devices.has_num (λ (d : PtpDevice). d.storage.device)

-- The same of a camera, whose status says which of the two it was.
pub ptp_eject-Answers :
    (os : Os) (num : ℤ) (h : Handler PtpDevice)
    → Answers os (has_num num) (get_device (has_num num) h.devices) h (eject_request os num h)
unfolding eject_request Ptp.eject_at Ptp.eject_found
ptp_eject-Answers os num h = go (get_device (has_num num) h.devices)
  where
    go : (o : Option PtpDevice) → Answers os (has_num num) o h (Ptp.eject_at os (has_num num) o h)
    go none = refl
    go (some d) = record {
      status = (eject_device os d h.trace).0;
      device = (eject_device os d h.trace).1;
      ejected = eject_device-IsEjected os d h.trace;
      replied = refl;
      stored = refl;
    }
