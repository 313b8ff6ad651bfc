-- ===== src/Media/Ptp/Twice.antt =====
-- Unmounting all cameras.
use com_webos_service_pdm.Prelude.{
  arith, Bool-cases, inl, inr, ℕ, ◌+◌, Bool, true, ◌&&◌, ◌≡◌, refl, ap, List, [], ◌∷◌,
  if◌then◌else◌,
}
use com_webos_service_pdm.Os.{Os, Trace, run}
use com_webos_service_pdm.StorageDevice.Mount.Calls.{count, is_command}
use com_webos_service_pdm.Devices.{Handler, sweep}
use com_webos_service_pdm.Media.{fusermount}
use com_webos_service_pdm.Media.Ptp.{PtpDevice, unmount_device, umount_all_drive, umount_turn}

abbrev pub count_mounted : List PtpDevice → ℕ
count_mounted [] = 0
count_mounted (d ∷ ds) = (if d.storage.is_mounted then 1 else 0) + count_mounted ds

module _ (os : Os) where
  unmount_device-count :
      (d : PtpDevice) (t : Trace)
      → count is_command (unmount_device os d t).1
        ≡ (if d.storage.is_mounted then 1 else 0) + count is_command t
  unfolding unmount_device fusermount run count
  unmount_device-count d t = elim (Bool-cases d.storage.is_mounted) [
    | inl e ↦ rw e (omega arith)
    | inr e ↦ rw e (omega arith)
  ]

  sweep-count :
      (b : Bool) (ds : List PtpDevice) (t : Trace)
      → let r = sweep (umount_turn os) b ds t in
        (r.1 ≡ ds) × (count is_command r.2 ≡ count_mounted ds + count is_command t)
  unfolding sweep umount_turn
  sweep-count b [] t = (refl, omega arith)
  sweep-count b (d ∷ ds) t =
      let r = sweep-count ((unmount_device os d t).0 && b) ds (unmount_device os d t).1 in
      (ap (λ l. d ∷ l) r.0, omega (arith, r.1, unmount_device-count d t))

-- Unmounting all cameras leaves each device as it was, its mounted flag too, and runs one command
-- for each that has the flag, whether or not it was unmounted before.
pub ptp_umount_all-count :
    (os : Os) (h : Handler PtpDevice)
    → let h' = (umount_all_drive os h).1 in
      (h'.devices ≡ h.devices)
      × (count is_command h'.trace ≡ count_mounted h.devices + count is_command h.trace)
unfolding umount_all_drive
ptp_umount_all-count os h = sweep-count os true h.devices h.trace
