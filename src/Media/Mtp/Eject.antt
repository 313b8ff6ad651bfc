-- ===== src/Media/Mtp/Eject.antt =====
-- Ejecting a media player.
use com_webos_service_pdm.Prelude.{
  Bool, true, false, ◌≡◌, refl, ◌⊎◌, inl, inr, Option, none, some, ℤ, pos, ◌==ℤ◌, Bool-cases,
}
use com_webos_service_pdm.Errors.{PdmDevStatus, success, eject_fail, device_not_found}
use com_webos_service_pdm.Os.{Os, Trace}
use com_webos_service_pdm.StorageDevice.State.{err_ejected}
use com_webos_service_pdm.StorageHandler.Requests.{Reply, reply_of}
use com_webos_service_pdm.Devices
use com_webos_service_pdm.Devices.{Handler, get_device, put_device}
use com_webos_service_pdm.Media.{Storage, fusermount}
use com_webos_service_pdm.Media.Mtp
use com_webos_service_pdm.Media.Mtp.{mtp_umount, eject_device, eject_request}

-- A mounted device is ejected and unmounted where fusermount succeeds; otherwise it stays as it
-- is.
pub record IsEjected (os : Os) (d : Storage) (t : Trace) (status : PdmDevStatus) (d' : Storage)
    : Type 0 where
  pub outcome :
      ((status ≡ success)
        × (d.is_mounted ≡ true)
        × (((fusermount os d.mount_name t).0 ==ℤ pos 0) ≡ true)
        × (d' ≡ record d {
          device = record d.device { error_reason = err_ejected };
          is_mounted = false;
        }))
      ⊎ ((status ≡ eject_fail)
          × ((d.is_mounted ≡ false) ⊎ (((fusermount os d.mount_name t).0 ==ℤ pos 0) ≡ false))
          × (d' ≡ d))

eject_device-IsEjected :
    (os : Os) (d : Storage) (t : Trace) → let r = eject_device os d t in IsEjected os d t r.0 r.1
unfolding eject_device mtp_umount
eject_device-IsEjected os d t = elim (Bool-cases d.is_mounted) [
  | inr m ↦ simp m (record { outcome = inr (refl, inl m, refl) })
  | inl m ↦ elim (Bool-cases ((fusermount os d.mount_name t).0 ==ℤ pos 0)) [
    | inl e ↦ simp (m, e) (record { outcome = inl (refl, m, e, refl) })
    | inr e ↦ simp (m, e) (record { outcome = inr (refl, inr e, refl) })
  ]
]

-- The reply and the state that an eject command leaves: `o` is the device of the number.
pub record IsAnswered (os : Os) (d : Storage) (test : Storage → Bool) (h : Handler Storage)
    (r : Bool × Option Reply) (h' : Handler Storage) : Type 0 where
  pub status : PdmDevStatus
  pub device : Storage
  pub ejected : IsEjected os d h.trace status device
  pub replied : r ≡ (true, some (reply_of status))
  pub stored : h'.devices ≡ put_device test device h.devices

abbrev pub Answers :
    Os
    → (Storage → Bool)
    → Option Storage
    → Handler Storage
    → (Bool × Option Reply) × Handler Storage
    → Type 0
Answers os test none h r = r ≡ ((false, some (reply_of device_not_found)), h)
Answers os test (some d) h (r, h') = IsAnswered os d test h r h'

abbrev pub has_num : ℤ → Storage → Bool
has_num = Devices.has_num (λ (d : Storage). d.device)

-- An eject command for a number that no media player has is refused as device not found and changes
-- nothing. For the first media player of the number it is taken: where that is mounted and
-- fusermount succeeds the reply says success and the device is unmounted and ejected; otherwise the
-- reply says that ejecting failed and the device is as before. The other devices stay.
pub mtp_eject-Answers :
    (os : Os) (num : ℤ) (h : Handler Storage)
    → Answers os (has_num num) (get_device (has_num num) h.devices) h (eject_request os num h)
unfolding eject_request Mtp.eject_at Mtp.eject_found
mtp_eject-Answers os num h = go (get_device (has_num num) h.devices)
  where
    go : (o : Option Storage) → Answers os (has_num num) o h (Mtp.eject_at os (has_num num) o h)
    go none = refl
    go (some d) = record {
      status = (eject_device os d h.trace).0;
      device = (eject_device os d h.trace).1;
      ejected = eject_device-IsEjected os d h.trace;
      replied = refl;
      stored = refl;
    }
