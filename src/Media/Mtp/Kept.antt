-- ===== src/Media/Mtp/Kept.antt =====
-- What holds of the media players that can be kept, through the operations on one of them.
use text.Mathlib.TextLemmas.{append-nil, append_assoc}
use com_webos_service_pdm.Prelude.{
  String, Bool, true, false, not, ◌||◌, ◌&&◌, ◌≡◌, refl, sym, ap, ◌⊎◌, inl, inr, pos, ◌==ℤ◌, append,
  starts_with, starts_with-append, is_empty, str_eq, arith, if_cases, Bool-cases,
}
use com_webos_service_pdm.Errors.{PdmDevStatus, is_success}
use com_webos_service_pdm.Os.{Os, Trace, create_dir}
use com_webos_service_pdm.DeviceClass.{Props, get_dev_type}
use com_webos_service_pdm.StorageDevice.State.{err_nothing, err_ejected}
use com_webos_service_pdm.Devices
use com_webos_service_pdm.Devices.{Handler, get_device, sweep}
use com_webos_service_pdm.Media.{Storage, new_storage, fusermount}
use com_webos_service_pdm.Media.Mtp
use com_webos_service_pdm.Media.Mtp.{
  new_mtp, set_device_info, get_dev_links, drop, mtp_mount, mtp_umount,
}
use com_webos_service_pdm.Media.Within.{
  IsWithin, remove_dir_recursive-IsWithin, create_dir-IsWithin, run-IsWithin, fusermount-IsWithin,
}

module _ (os : Os) where
  -- The root path is the common root path with the drive name behind it, the mount point the same
  -- name below that, and the device is not mounted once it is ejected.
  pub record IsKept (d : Storage) : Type 0 where
    pub named : d.root_path ≡ append os.root_path d.drive_name
    pub mounted_at : d.mount_name ≡ append d.root_path (append "/" d.drive_name)
    pub ejected_unmounted : d.error_reason ≡ err_ejected → d.is_mounted ≡ false

  -- A device before it is mounted.
  pub record IsFresh (d : Storage) : Type 0 where
    pub named : d.root_path ≡ append os.root_path d.drive_name
    pub mount_named :
        (d.mount_name ≡ "") ⊎ (d.mount_name ≡ append d.root_path (append "/" d.drive_name))
    pub unmounted : d.is_mounted ≡ false

  pub set_device_info-IsFresh : (dev : Props) → IsFresh (set_device_info os dev (new_mtp os))
  unfolding set_device_info new_mtp new_storage Mtp.set_names Mtp.set_speed Mtp.name_paths
  set_device_info-IsFresh dev = elim (Bool-cases (str_eq (get_dev_type dev) "usb_device")) [
    | inr e ↦ rw e (record { named = sym (append-nil _); mount_named = inl refl; unmounted = refl })
    | inl e ↦ rw e (elim (Bool-cases (is_empty (get_dev_links dev))) [
      | inl f ↦
          rw f (record { named = sym (append-nil _); mount_named = inl refl; unmounted = refl })
      | inr f ↦ rw f (record { named = refl; mount_named = inr refl; unmounted = refl })
    ])
  ]

  under_root :
      (d : Storage)
      → d.root_path ≡ append os.root_path d.drive_name
      → starts_with d.root_path os.root_path ≡ true
  under_root d e = rw e (starts_with-append os.root_path d.drive_name)

  under_root-append :
      (d : Storage) (name : String)
      → d.root_path ≡ append os.root_path d.drive_name
      → starts_with (append d.root_path name) os.root_path ≡ true
  under_root-append d name e =
      rw (e, append_assoc os.root_path d.drive_name name)
        (starts_with-append os.root_path (append d.drive_name name))

  -- What an action on a device leaves behind.
  abbrev pub Kept : PdmDevStatus × Storage × Trace → Type 0
  Kept (status, d, t) = IsKept d × IsWithin os.root_path t

  pub mtp_umount-Kept :
      (d : Storage) (t : Trace) → IsKept d → IsWithin os.root_path t → Kept (mtp_umount os d t)
  unfolding mtp_umount
  mtp_umount-Kept d t k w =
      if_cases Kept (not d.is_mounted) (λ _. (k, w))
        (λ _.
          if_cases Kept ((fusermount os d.mount_name t).0 ==ℤ pos 0)
            (λ _. (
              record { named = k.named; mounted_at = k.mounted_at; ejected_unmounted = λ _. refl },
              fusermount-IsWithin os _ t w _,
            ))
            (λ _. (k, fusermount-IsWithin os _ t w _)))

  mtp_umount-unmounted :
      (d : Storage) (t : Trace)
      → is_success (mtp_umount os d t).0 ≡ true
      → (mtp_umount os d t).1.is_mounted ≡ false
  unfolding mtp_umount
  mtp_umount-unmounted d t =
      if_cases
        (λ (r : PdmDevStatus × Storage × Trace). is_success r.0 ≡ true → r.1.is_mounted ≡ false)
        (not d.is_mounted) (λ _ h. cc)
        (λ _.
          if_cases
            (λ (r : PdmDevStatus × Storage × Trace). is_success r.0 ≡ true → r.1.is_mounted ≡ false)
            ((fusermount os d.mount_name t).0 ==ℤ pos 0) (λ _ h. refl) (λ _ h. cc))

  pub eject_device-Kept :
      (d : Storage) (t : Trace)
      → IsKept d
      → IsWithin os.root_path t
      → Kept (Mtp.eject_device os d t)
  unfolding Mtp.eject_device
  eject_device-Kept d t k w =
      let u = mtp_umount-Kept d t k w in
      if_cases Kept (is_success (mtp_umount os d t).0)
        (λ e. (
          record {
            named = u.0.named;
            mounted_at = u.0.mounted_at;
            ejected_unmounted = λ _. mtp_umount-unmounted d t e;
          },
          u.1,
        ))
        (λ _. u)

  mtp_umount-trace :
      (d : Storage) (t : Trace)
      → IsWithin os.root_path t
      → IsWithin os.root_path (mtp_umount os d t).2
  unfolding mtp_umount
  mtp_umount-trace d t w =
      if_cases (λ (r : PdmDevStatus × Storage × Trace). IsWithin os.root_path r.2)
        (not d.is_mounted) (λ _. w)
        (λ _.
          if_cases (λ (r : PdmDevStatus × Storage × Trace). IsWithin os.root_path r.2)
            ((fusermount os d.mount_name t).0 ==ℤ pos 0) (λ _. fusermount-IsWithin os _ t w _)
            (λ _. fusermount-IsWithin os _ t w _))

  pub on_device_remove-IsWithin :
      (d : Storage) (t : Trace)
      → d.root_path ≡ append os.root_path d.drive_name
      → IsWithin os.root_path t
      → IsWithin os.root_path (Mtp.on_device_remove os d t)
  unfolding Mtp.on_device_remove Mtp.tell_unmounted Devices.command_notification
  on_device_remove-IsWithin d t e w =
      remove_dir_recursive-IsWithin os _ _
        (if_cases (IsWithin os.root_path) (str_eq d.error_reason err_ejected) (λ _. told)
          (λ _. mtp_umount-trace d _ told))
        _ (under_root d e)
    where
      told : IsWithin os.root_path (Mtp.tell_unmounted os d t).1
      told =
          if_cases (λ (r : Unit {0} × Trace). IsWithin os.root_path r.1)
            (not d.is_mounted && not (str_eq d.error_reason err_ejected)) (λ _. (tt, w)) (λ _. w)

  not_ejected : err_nothing ≡ err_ejected → true ≡ false
  not_ejected e = sym (ap (λ s. str_eq s err_ejected) e)

  make_mount-IsWithin :
      (name : String) (d : Storage) (t : Trace)
      → IsFresh d
      → IsWithin os.root_path t
      → is_empty d.mount_name ≡ false
      → IsWithin os.root_path (Mtp.make_mount os name d.mount_name t).1
  unfolding Mtp.make_mount Mtp.mount_device
  make_mount-IsWithin name d t f w e =
      if_cases (λ (r : Bool × Trace). IsWithin os.root_path r.1) (create_dir os d.mount_name t).0
        (λ _. run-IsWithin os _ _ made _) (λ _. made)
    where
      made : IsWithin os.root_path (create_dir os d.mount_name t).1
      made = create_dir-IsWithin os _ t w _ (elim f.mount_named [
        | inl p ↦ cc (e, ap is_empty p)
        | inr p ↦ rw p (under_root-append d _ f.named)
      ])

  kept_mount :
      (d : Storage)
      → IsFresh d
      → is_empty d.mount_name ≡ false
      → IsKept
          (record d { device = record d.device { error_reason = err_nothing }; is_mounted = true })
  kept_mount d f e = record {
    named = f.named;
    mounted_at = elim f.mount_named [ inl p ↦ cc (e, ap is_empty p) | inr p ↦ p ];
    ejected_unmounted = λ h. cc (not_ejected h);
  }

  abbrev pub Mounts : PdmDevStatus × Storage × Trace → Type 0
  Mounts (status, d, t) =
      IsWithin os.root_path t
      × (d.root_path ≡ append os.root_path d.drive_name)
      × (is_success status ≡ true → IsKept d)

  pub mtp_mount-Mounts :
      (name : String) (d : Storage) (t : Trace)
      → IsFresh d
      → IsWithin os.root_path t
      → Mounts (mtp_mount os name d t)
  unfolding mtp_mount
  mtp_mount-Mounts name d t f w =
      if_cases Mounts (is_empty name || is_empty d.mount_name) (λ _. (w, f.named, λ h. cc))
        (λ e.
          let e' : is_empty d.mount_name ≡ false = ground arith in
          let made = make_mount-IsWithin name d t f w e' in
          if_cases Mounts (Mtp.make_mount os name d.mount_name t).0
            (λ _. (made, f.named, λ _. kept_mount d f e'))
            (λ _. (
              remove_dir_recursive-IsWithin os _ _ made _ (under_root d f.named),
              f.named,
              λ h. cc,
            )))
