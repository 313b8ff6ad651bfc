-- ===== src/Media/Ptp/Kept.antt =====
-- What holds of the cameras that can be kept, through the operations on one of them.
use text.Mathlib.TextLemmas.{append-nil, append_assoc}
use com_webos_service_pdm.Prelude.{
  Bool, true, false, not, ◌&&◌, ◌≡◌, refl, sym, ap, append, starts_with, starts_with-append,
  is_empty, str_eq, if_cases, subst, if◌then◌else◌,
}
use com_webos_service_pdm.Errors.{PdmDevStatus, is_success}
use com_webos_service_pdm.Os.{Os, Trace, create_dir}
use com_webos_service_pdm.DeviceClass.{Props, get_dev_type}
use com_webos_service_pdm.StorageDevice.State.{err_nothing, err_ejected}
use com_webos_service_pdm.Media.{new_storage}
use com_webos_service_pdm.Media.Ptp
use com_webos_service_pdm.Media.Ptp.{
  PtpDevice, new_ptp, name_paths, dir_name, set_device_info, ptp_mount, ptp_umount, unmount_device,
  has_numbers, read_numbers,
}
use com_webos_service_pdm.Media.Within.{
  IsWithin, remove_dir_recursive-IsWithin, create_dir-IsWithin, run-IsWithin, fusermount-IsWithin,
}

module _ (os : Os) where
  -- The device has the directory of its numbers in the common one, is mounted in that, and is not
  -- mounted once it is ejected.
  pub record IsKept (d : PtpDevice) : Type 0 where
    pub numbered : d.storage.drive_name ≡ dir_name d
    pub named : d.storage.root_path ≡ append os.root_path d.storage.drive_name
    pub mounted_at :
        d.storage.mount_name ≡ append d.storage.root_path (append "/" d.storage.drive_name)
    pub ejected_unmounted :
        d.storage.device.error_reason ≡ err_ejected → d.storage.is_mounted ≡ false

  -- A device before it is mounted.
  pub record IsFresh (d : PtpDevice) : Type 0 where
    pub at_root : d.storage.root_path ≡ os.root_path
    pub unnamed : d.storage.drive_name ≡ ""
    pub unmounted : d.storage.is_mounted ≡ false

  pub new_ptp-IsFresh : IsFresh (new_ptp os)
  unfolding new_ptp new_storage
  new_ptp-IsFresh = record { at_root = refl; unnamed = refl; unmounted = refl }

  read_numbers-IsFresh : (dev : Props) (d : PtpDevice) → IsFresh d → IsFresh (read_numbers os dev d)
  unfolding read_numbers
  read_numbers-IsFresh dev d f = record {
    at_root = f.at_root;
    unnamed = f.unnamed;
    unmounted = f.unmounted;
  }

  pub under_root :
      (d : PtpDevice)
      → d.storage.root_path ≡ append os.root_path d.storage.drive_name
      → starts_with d.storage.root_path os.root_path ≡ true
  under_root d e = rw e (starts_with-append os.root_path d.storage.drive_name)

  abbrev pub Result : Type 0
  Result = PdmDevStatus × PtpDevice × Trace

  -- What an action on a device leaves behind.
  abbrev pub Kept : Result → Type 0
  Kept (status, d, t) = IsKept d × IsWithin os.root_path t

  pub unmount_device-IsWithin :
      (d : PtpDevice) (t : Trace)
      → IsWithin os.root_path t
      → IsWithin os.root_path (unmount_device os d t).1
  unfolding unmount_device
  unmount_device-IsWithin d t w =
      if_cases (λ (r : Bool × Trace). IsWithin os.root_path r.1) (not d.storage.is_mounted) (λ _. w)
        (λ _. fusermount-IsWithin os _ t w _)

  ptp_umount-Kept :
      (d : PtpDevice) (t : Trace) → IsKept d → IsWithin os.root_path t → Kept (ptp_umount os d t)
  unfolding ptp_umount dir_name
  ptp_umount-Kept d t k w =
      if_cases Kept (d.storage.is_mounted && (unmount_device os d t).0)
        (λ _. (
          record {
            numbered = k.numbered;
            named = k.named;
            mounted_at = k.mounted_at;
            ejected_unmounted = λ _. refl;
          },
          unmount_device-IsWithin d t w,
        ))
        (λ _. (
          record {
            numbered = k.numbered;
            named = k.named;
            mounted_at = k.mounted_at;
            ejected_unmounted = k.ejected_unmounted;
          },
          unmount_device-IsWithin d t w,
        ))

  ptp_umount-unmounted :
      (d : PtpDevice) (t : Trace)
      → is_success (ptp_umount os d t).0 ≡ true
      → (ptp_umount os d t).1.storage.is_mounted ≡ false
  unfolding ptp_umount
  ptp_umount-unmounted d t =
      if_cases (λ (r : Result). is_success r.0 ≡ true → r.1.storage.is_mounted ≡ false)
        (d.storage.is_mounted && (unmount_device os d t).0) (λ _ h. refl) (λ _ h. cc)

  pub eject_device-Kept :
      (d : PtpDevice) (t : Trace)
      → IsKept d
      → IsWithin os.root_path t
      → Kept (Ptp.eject_device os d t)
  unfolding Ptp.eject_device dir_name
  eject_device-Kept d t k w =
      let u = ptp_umount-Kept d t k w in
      if_cases Kept (is_success (ptp_umount os d t).0)
        (λ e. (
          record {
            numbered = u.0.numbered;
            named = u.0.named;
            mounted_at = u.0.mounted_at;
            ejected_unmounted = λ _. ptp_umount-unmounted d t e;
          },
          u.1,
        ))
        (λ _. u)

  ptp_umount-trace :
      (d : PtpDevice) (t : Trace)
      → IsWithin os.root_path t
      → IsWithin os.root_path (ptp_umount os d t).2
  unfolding ptp_umount
  ptp_umount-trace d t w =
      if_cases (λ (r : Result). IsWithin os.root_path r.2)
        (d.storage.is_mounted && (unmount_device os d t).0) (λ _. unmount_device-IsWithin d t w)
        (λ _. unmount_device-IsWithin d t w)

  pub on_device_remove-IsWithin :
      (d : PtpDevice) (t : Trace)
      → starts_with d.storage.root_path os.root_path ≡ true
      → IsWithin os.root_path t
      → IsWithin os.root_path (Ptp.on_device_remove os d t)
  unfolding Ptp.on_device_remove
  on_device_remove-IsWithin d t e w =
      remove_dir_recursive-IsWithin os _ _
        (if_cases (IsWithin os.root_path) (str_eq d.storage.device.error_reason err_ejected)
          (λ _. w) (λ _. ptp_umount-trace d _ w))
        _ e

  not_ejected : err_nothing ≡ err_ejected → true ≡ false
  not_ejected e = sym (ap (λ s. str_eq s err_ejected) e)

  make_mount-IsWithin :
      (d : PtpDevice) (t : Trace)
      → IsFresh d
      → IsWithin os.root_path t
      → IsWithin os.root_path (Ptp.make_mount os (name_paths d) t).1
  unfolding Ptp.make_mount Ptp.mount_device name_paths dir_name
  make_mount-IsWithin d t f w =
      if_cases (λ (r : Bool × Trace). IsWithin os.root_path r.1)
        (create_dir os (name_paths d).storage.mount_name t).0 (λ _. run-IsWithin os _ _ made _)
        (λ _. made)
    where
      made : IsWithin os.root_path (create_dir os (name_paths d).storage.mount_name t).1
      made = create_dir-IsWithin os _ t w _ (
          rw (f.at_root, append_assoc os.root_path (dir_name d) (append "/" (dir_name d)))
            (starts_with-append os.root_path (append (dir_name d) (append "/" (dir_name d)))))

  -- What mounting leaves: a directory under the root, and a device that can be kept if mounted.
  abbrev pub Mounts : PtpDevice × Trace → Type 0
  Mounts (d, t) =
      IsWithin os.root_path t
      × (starts_with d.storage.root_path os.root_path ≡ true)
      × (d.storage.is_mounted ≡ true → IsKept d)

  fresh_start : (d : PtpDevice) (t : Trace) → IsFresh d → IsWithin os.root_path t → Mounts (d, t)
  fresh_start d t f w = (w, rw f.at_root itself, λ h. cc (f.unmounted, h))
    where
      itself : starts_with os.root_path os.root_path ≡ true
      itself =
          subst (λ s. starts_with s os.root_path ≡ true) (append-nil os.root_path)
            (starts_with-append os.root_path "")

  ptp_mount-Mounts :
      (d : PtpDevice) (t : Trace)
      → IsFresh d
      → IsWithin os.root_path t
      → let r = ptp_mount os d t in Mounts (r.1, r.2)
  unfolding ptp_mount name_paths Ptp.mounted_device dir_name
  ptp_mount-Mounts d t f w =
      if_cases (λ (r : Result). Mounts (r.1, r.2)) (is_empty d.storage.root_path)
        (λ _. fresh_start d t f w)
        (λ e.
          let made = make_mount-IsWithin d t f w in
          let under : starts_with (append d.storage.root_path (dir_name d)) os.root_path ≡ true =
            rw f.at_root (starts_with-append os.root_path (dir_name d)) in
          if_cases (λ (r : Result). Mounts (r.1, r.2)) (Ptp.make_mount os (name_paths d) t).0
            (λ _. (
              made,
              under,
              λ _. record {
                numbered = refl;
                named = ap (λ p. append p (dir_name d)) f.at_root;
                mounted_at = refl;
                ejected_unmounted = λ h. cc (not_ejected h);
              },
            ))
            (λ _. (made, under, λ h. cc (f.unmounted, h))))

  pub set_device_info-Mounts :
      (dev : Props) (d : PtpDevice) (t : Trace)
      → IsFresh d
      → IsWithin os.root_path t
      → Mounts (set_device_info os dev d t)
  unfolding set_device_info
  set_device_info-Mounts dev d t f w =
      let g : IsFresh
          (if str_eq (get_dev_type dev) "usb_device" then read_numbers os dev d else d) =
        if_cases IsFresh (str_eq (get_dev_type dev) "usb_device")
          (λ _. read_numbers-IsFresh dev d f) (λ _. f) in
      if_cases Mounts
        (has_numbers os
          (if str_eq (get_dev_type dev) "usb_device" then read_numbers os dev d else d))
        (λ _. ptp_mount-Mounts _ t g w) (λ _. fresh_start _ t g w)
