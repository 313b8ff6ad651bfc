-- ===== src/Media/Mtp/Twice.antt =====
-- Unmounting all media players, and doing so again.
use com_webos_service_pdm.Prelude.{
  arith, Bool, true, false, ◌&&◌, ◌≡◌, refl, ◌∙◌, List, [], ◌∷◌, All, is_nil,
}
use com_webos_service_pdm.Errors.{umount_fail, is_success}
use com_webos_service_pdm.Os.{Os, Trace}
use com_webos_service_pdm.Devices.{Handler, sweep}
use com_webos_service_pdm.Media.{Storage}
use com_webos_service_pdm.Media.Mtp.{mtp_umount, umount_all_drive, umount_turn}

abbrev IsIdle : Storage → Type 0
IsIdle d = d.is_mounted ≡ false

module _ (os : Os) where
  mtp_umount-IsIdle :
      (d : Storage) (t : Trace)
      → is_success (mtp_umount os d t).0 ≡ true
      → IsIdle (mtp_umount os d t).1
  unfolding mtp_umount
  mtp_umount-IsIdle d t = ground arith

  -- The loop reports success only where each device is unmounted behind it.
  sweep-IsIdle :
      (b : Bool) (ds : List Storage) (t : Trace)
      → (sweep (umount_turn os) b ds t).0 ≡ true
      → (b ≡ true) × All IsIdle (sweep (umount_turn os) b ds t).1
  unfolding sweep umount_turn
  sweep-IsIdle b [] t e = (e, tt)
  sweep-IsIdle b (d ∷ ds) t e =
      let r = sweep-IsIdle (is_success (mtp_umount os d t).0 && b) ds (mtp_umount os d t).2 e in
      (ground arith, (mtp_umount-IsIdle d t (ground arith), r.1))

  mtp_umount-refused :
      (d : Storage) (t : Trace) → IsIdle d → mtp_umount os d t ≡ (umount_fail, d, t)
  unfolding mtp_umount
  mtp_umount-refused d t e = ground arith

  sweep-false :
      (ds : List Storage) (t : Trace)
      → All IsIdle ds
      → sweep (umount_turn os) false ds t ≡ (false, ds, t)
  unfolding sweep umount_turn
  sweep-false [] t h = refl
  sweep-false (d ∷ ds) t h = rw (mtp_umount-refused d t h.0, sweep-false ds t h.1) refl

  sweep-refused :
      (ds : List Storage) (t : Trace)
      → is_nil ds ≡ false
      → All IsIdle ds
      → sweep (umount_turn os) true ds t ≡ (false, ds, t)
  unfolding sweep umount_turn
  sweep-refused [] t n h = cc
  sweep-refused (d ∷ ds) t n h = rw (mtp_umount-refused d t h.0, sweep-false ds t h.1) refl

  sweep-is_nil :
      (b : Bool) (ds : List Storage) (t : Trace)
      → is_nil (sweep (umount_turn os) b ds t).1 ≡ is_nil ds
  unfolding sweep
  sweep-is_nil b [] t = refl
  sweep-is_nil b (d ∷ ds) t = refl

-- Where unmounting all media players succeeds and there is one, doing so again fails, runs no
-- command and changes nothing.
pub mtp_umount_all_twice :
    (os : Os) (h : Handler Storage)
    → is_nil h.devices ≡ false
    → (umount_all_drive os h).0 ≡ true
    → let h' = (umount_all_drive os h).1 in umount_all_drive os h' ≡ (false, h')
unfolding umount_all_drive
mtp_umount_all_twice os h n e =
    rw
      (sweep-refused os (sweep (umount_turn os) true h.devices h.trace).1 _
        (sweep-is_nil os true h.devices h.trace ∙ n) (sweep-IsIdle os true h.devices h.trace e).1)
      refl
