-- ===== src/StorageDevice/Power/Suspend.antt =====
-- The unmounts of suspendUmountAllPartitions when the system is suspended.
use com_webos_service_pdm.Prelude.{
  ◌+◌, Bool, true, false, ◌≡◌, refl, ap, List, [], ◌∷◌, length, arith,
}
use com_webos_service_pdm.Os.{Os, Call, Trace, umount2}
use com_webos_service_pdm.Partition.{DiskPartitionInfo}
use com_webos_service_pdm.Fs
use com_webos_service_pdm.Fs.{Slot}
use com_webos_service_pdm.StorageDevice.State.{Dev}
use com_webos_service_pdm.StorageDevice.Mount.Calls.{count}
use com_webos_service_pdm.StorageDevice.Power.{suspend_umount, suspend_umount_all_partitions}

abbrev pub is_umount : Call → Bool
is_umount (umount2 dir flags) = true
is_umount _ = false

suspend_umount-lazy :
    (os : Os) (ps : List DiskPartitionInfo) (t : Trace)
    → ((suspend_umount os true ps t).1 ≡ ps)
      × (count is_umount (suspend_umount os true ps t).2 ≡ length ps + count is_umount t)
unfolding suspend_umount Fs.umount count
suspend_umount-lazy os [] t = (refl, omega arith)
suspend_umount-lazy os (p ∷ ps) t =
    let r = suspend_umount-lazy os ps (Call.umount2 p.mount_name 3 ∷ t) in
    (ap (λ l. p ∷ l) r.0, omega (arith, r.1))

-- A lazy unmount for a suspend asks the system once for each partition, mounted or not and whether
-- or not the unmounts before it failed, and changes no partition, so all that counted as mounted
-- still do.
suspend_umount_all_partitions-lazy :
    (os : Os) (d : Dev)
    → let after = (suspend_umount_all_partitions os true d).1 in
      (after.partitions ≡ d.partitions)
      × (count is_umount after.trace ≡ length d.partitions + count is_umount d.trace)
unfolding suspend_umount_all_partitions
suspend_umount_all_partitions-lazy os d = suspend_umount-lazy os d.partitions d.trace
