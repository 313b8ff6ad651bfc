-- ===== src/StorageDevice/Mount/Umount.antt =====
-- What umountPartition does on each of its branches.
use com_webos_service_pdm.Prelude.{
  Bool, true, false, ◌≡◌, refl, if◌then◌else◌, arith, ◌∷◌, if_cases, not, append, is_empty, ◌==◌,
  ◌&&◌,
}
use com_webos_service_pdm.Errors.{PdmDevStatus, success, umount_fail, busy}
use com_webos_service_pdm.Os.{Os, Call, umount, mount, no_device, Trace}
use com_webos_service_pdm.Fs
use com_webos_service_pdm.Fs.{Slot}
use com_webos_service_pdm.Partition.{
  DiskPartitionInfo, set_drive_status, umount_ok, umount_not_ok, partition_unlock,
}
use com_webos_service_pdm.StorageDevice.Mount.{umount_partition, umount_now, umounted, umount_idle}

-- The calls of an unmount that is tried, newest first.
abbrev pub tried_umount : DiskPartitionInfo → Bool → Bool → Trace → Trace
tried_umount p lazy done t =
    Call.callback (if done then umount else mount) no_device
    ∷ Call.umount2 p.mount_name (if lazy then 3 else 1)
    ∷ Call.callback umount no_device
    ∷ t

abbrev pub after_umount : DiskPartitionInfo → Bool → DiskPartitionInfo
after_umount p done =
    partition_unlock (set_drive_status (if done then umount_ok else umount_not_ok) p)

-- Whether the system takes the unmount.
abbrev pub accepts_umount : Os → DiskPartitionInfo → Bool → Trace → Bool
accepts_umount os p lazy t =
    os.umount2 (Call.callback umount no_device ∷ t) p.mount_name (if lazy then 3 else 1) == 0

umounted_lem :
    (os : Os) (done : Bool) (s : Slot)
    → umounted os done s ≡ (
      if done then success else umount_fail,
      record {
        part = after_umount s.part done;
        trace = Call.callback (if done then umount else mount) no_device ∷ s.trace;
      },
    )
unfolding set_drive_status
umounted_lem os true s = refl
umounted_lem os false s = refl

umount_now_lem :
    (os : Os) (lazy : Bool) (s : Slot)
    → let done = accepts_umount os s.part lazy s.trace in
      umount_now os lazy s ≡ (
        if done then success else umount_fail,
        record { part = after_umount s.part done; trace = tried_umount s.part lazy done s.trace },
      )
unfolding umount_now Fs.umount set_drive_status
umount_now_lem os true s = umounted_lem os (accepts_umount os s.part true s.trace) _
umount_now_lem os false s = umounted_lem os (accepts_umount os s.part false s.trace) _

-- Whether a program has files open under the mount point, as `lsof` says.
abbrev pub is_busy : Os → DiskPartitionInfo → Trace → Bool
is_busy os p t = not (is_empty (os.shell t (append "lsof +D " p.mount_name)))

abbrev pub asked_lsof : DiskPartitionInfo → Trace → Trace
asked_lsof p t = Call.shell (append "lsof +D " p.mount_name) ∷ t

umount_idle_lem :
    (os : Os) (s : Slot)
    → let t = asked_lsof s.part s.trace in
      let done = accepts_umount os s.part false t in
      umount_idle os false s ≡ (
        if is_busy os s.part s.trace then (busy, record s { trace = t }) else (
          if done then success else umount_fail,
          record { part = after_umount s.part done; trace = tried_umount s.part false done t },
        ))
unfolding umount_idle Fs.is_drive_busy
umount_idle_lem os s = rw (umount_now_lem os false (record s { trace = asked_lsof s.part s.trace }))

-- The result, partition and trace of an unmount, branch by branch.
abbrev pub umount_result : Os → Bool → Slot → PdmDevStatus × Slot
umount_result os lazy s =
    let t = if lazy then s.trace else asked_lsof s.part s.trace in
    let done = accepts_umount os s.part lazy t in
    if not s.part.is_mounted
    then (success, s)
    else if not lazy && is_busy os s.part s.trace
    then (busy, record s { trace = asked_lsof s.part s.trace })
    else (
      if done then success else umount_fail,
      record { part = after_umount s.part done; trace = tried_umount s.part lazy done t },
    )

-- A partition that is not mounted is left alone, with no call. Otherwise, unless it is lazy, an
-- unmount asks first whether the drive is busy, and then stops there. Else it unmounts, between two
-- callbacks, and the status tells how that went.
pub umount_partition_lem :
    (os : Os) (lazy : Bool) (s : Slot) → umount_partition os lazy s ≡ umount_result os lazy s
unfolding umount_partition
umount_partition_lem os true s = rw (umount_now_lem os true s)
umount_partition_lem os false s = rw (umount_idle_lem os s)

-- To prove a property of an unmount, prove it of its three outcomes.
pub umount_partition_cases :
    (P : PdmDevStatus → Slot → Type 0) (os : Os) (lazy : Bool) (s : Slot)
    → (s.part.is_mounted ≡ false → P success s)
    → (lazy ≡ false
        → s.part.is_mounted ≡ true
        → P busy (record s { trace = asked_lsof s.part s.trace }))
    → ((done : Bool)
        → s.part.is_mounted ≡ true
        → P (if done then success else umount_fail) (record {
          part = after_umount s.part done;
          trace =
              tried_umount s.part lazy done (if lazy then s.trace else asked_lsof s.part s.trace);
        }))
    → P (umount_partition os lazy s).0 (umount_partition os lazy s).1
umount_partition_cases P os lazy s idle refused tried = rw (umount_partition_lem os lazy s) (
    if_cases (λ (r : PdmDevStatus × Slot). P r.0 r.1) (not s.part.is_mounted)
      (λ e. idle (by_not _ e))
      (λ e.
        if_cases (λ (r : PdmDevStatus × Slot). P r.0 r.1) (not lazy && is_busy os s.part s.trace)
          (λ f. refused (lazy_off lazy _ f) (by_not' _ e)) (λ f. tried _ (by_not' _ e))))
  where
    by_not : (b : Bool) → not b ≡ true → b ≡ false
    by_not b e = ground arith

    by_not' : (b : Bool) → not b ≡ false → b ≡ true
    by_not' b e = ground arith

    lazy_off : (b c : Bool) → not b && c ≡ true → b ≡ false
    lazy_off b c e = ground arith
