-- ===== src/StorageDevice/Mount/All.antt =====
-- The unmount of every partition of a device, and the eject that stands on it.
use com_webos_service_pdm.Prelude.{
  Bool, true, false, not, ◌&&◌, ◌≡◌, refl, ap, ◌∙◌, subst, List, [], ◌∷◌, All, if◌then◌else◌,
  if_cases, arith, Bool-cases, inl, inr,
}
use com_webos_service_pdm.Errors.{
  PdmDevStatus, success, umount_fail, umount_all_fail, busy, is_success,
}
use com_webos_service_pdm.Os.{Os, Trace}
use com_webos_service_pdm.Fs.{Slot, On}
use com_webos_service_pdm.Partition.{DiskPartitionInfo, set_drive_status, umount_ok, umount_not_ok}
use com_webos_service_pdm.Partition.Status.{IsConsistent}
use com_webos_service_pdm.StorageDevice.State.{Dev, sweep, on_partitions}
use com_webos_service_pdm.StorageDevice.Mount.{umount_partition, umount_all_partition, umount_one}
use com_webos_service_pdm.StorageDevice.Mount.Umount.{
  umount_partition_cases, umount_partition_lem, after_umount, accepts_umount, is_busy, asked_lsof,
  tried_umount,
}

-- The calls behind which an unmount is tried: one that is not lazy has asked whether the drive is
-- busy.
abbrev pub before_umount : Bool → Slot → Trace
before_umount lazy s = if lazy then s.trace else asked_lsof s.part s.trace

-- Whether an unmount goes as far as umount2.
abbrev pub GoesOn : Os → Bool → Slot → Type 0
GoesOn os lazy s = (s.part.is_mounted ≡ true) × ((not lazy && is_busy os s.part s.trace) ≡ false)

-- How an unmount ends, from what the partition was and what `lsof` and umount2 answer.
pub data Outcome (os : Os) (lazy : Bool) (old : Slot) (status : PdmDevStatus) (new : Slot)
    : Type 0 where
  idle : old.part.is_mounted ≡ false → status ≡ success → new ≡ old → Outcome os lazy old status new
  in_use :
      old.part.is_mounted ≡ true
      → lazy ≡ false
      → is_busy os old.part old.trace ≡ true
      → status ≡ busy
      → new ≡ record old { trace = asked_lsof old.part old.trace }
      → Outcome os lazy old status new
  taken :
      GoesOn os lazy old
      → accepts_umount os old.part lazy (before_umount lazy old) ≡ true
      → status ≡ success
      → new.part.drive_status ≡ umount_ok
      → new.part.is_mounted ≡ false
      → new.trace ≡ tried_umount old.part lazy true (before_umount lazy old)
      → Outcome os lazy old status new
  failed :
      GoesOn os lazy old
      → accepts_umount os old.part lazy (before_umount lazy old) ≡ false
      → status ≡ umount_fail
      → new.part.drive_status ≡ umount_not_ok
      → new.part.is_mounted ≡ false
      → new.trace ≡ tried_umount old.part lazy false (before_umount lazy old)
      → Outcome os lazy old status new

-- What an unmount leaves of a partition.
pub record IsUmountOf (os : Os) (lazy : Bool) (old : Slot) (status : PdmDevStatus) (new : Slot)
    : Type 0 where
  pub same_name : new.part.drive_name ≡ old.part.drive_name
  pub same_mount_point : new.part.mount_name ≡ old.part.mount_name
  pub outcome : Outcome os lazy old status new

tried :
    (os : Os) (lazy : Bool) (s : Slot)
    → GoesOn os lazy s
    → (done : Bool) → accepts_umount os s.part lazy (before_umount lazy s) ≡ done
    → IsUmountOf os lazy s (if done then success else umount_fail) (record {
      part = after_umount s.part done;
      trace = tried_umount s.part lazy done (before_umount lazy s);
    })
unfolding set_drive_status
tried os lazy s g true e = record {
  same_name = refl;
  same_mount_point = refl;
  outcome = taken g e refl refl refl refl;
}
tried os lazy s g false e = record {
  same_name = refl;
  same_mount_point = refl;
  outcome = failed g e refl refl refl refl;
}

-- An unmount keeps the name and the mount point of the partition, and ends in one of four ways. A
-- partition that is not mounted is left as it is, with success and no call. Where the unmount is
-- not lazy and `lsof` lists a program, it reports that the drive is busy, and only `lsof` was run.
-- Otherwise umount2 is called between two callbacks, and the partition counts as not mounted: with
-- success and the status of an unmounted partition where umount2 answers 0, and with a failed
-- unmount and the status of that where it does not.
pub umount_partition-IsUmountOf :
    (os : Os) (lazy : Bool) (s : Slot)
    → IsUmountOf os lazy s (umount_partition os lazy s).0 (umount_partition os lazy s).1
umount_partition-IsUmountOf os lazy s = rw (umount_partition_lem os lazy s) (
    if_cases IsResult (not s.part.is_mounted)
      (λ e. record {
        same_name = refl;
        same_mount_point = refl;
        outcome = idle (ground arith) refl refl;
      })
      (λ e.
        if_cases IsResult (not lazy && is_busy os s.part s.trace)
          (λ f. record {
            same_name = refl;
            same_mount_point = refl;
            outcome = in_use (ground arith) (ground arith) (ground arith) refl refl;
          })
          (λ f. tried os lazy s (ground arith, f) _ refl)))
  where
    IsResult : PdmDevStatus × Slot → Type 0
    IsResult r = IsUmountOf os lazy s r.0 r.1

pub unmounted_of_done :
    (os : Os) (lazy : Bool) (old : Slot) (status : PdmDevStatus) (new : Slot)
    → IsUmountOf os lazy old status new
    → is_success status ≡ true
    → new.part.is_mounted ≡ false
unmounted_of_done os lazy old status new u ok = elim u.outcome [
  | idle off e same ↦ ap (λ (s : Slot). s.part.is_mounted) same ∙ off
  | in_use on l f e same ↦ absurd (cc (ok, ap is_success e))
  | taken g a e st off t ↦ off
  | failed g a e st off t ↦ off
]

unmounted_of_lazy :
    (os : Os) (old : Slot) (status : PdmDevStatus) (new : Slot)
    → IsUmountOf os true old status new
    → new.part.is_mounted ≡ false
unmounted_of_lazy os old status new u = elim u.outcome [
  | idle off e same ↦ ap (λ (s : Slot). s.part.is_mounted) same ∙ off
  | in_use on l f e same ↦ absurd (cc l)
  | taken g a e st off t ↦ off
  | failed g a e st off t ↦ off
]

-- An unmount keeps a partition consistent: it counts as mounted exactly while its status is
-- MOUNT_OK, and its lock is free.
umount_partition-IsConsistent :
    (os : Os) (lazy : Bool) (s : Slot)
    → IsConsistent s.part
    → IsConsistent (umount_partition os lazy s).1.part
unfolding set_drive_status
umount_partition-IsConsistent os lazy s h =
    umount_partition_cases (λ status s'. IsConsistent s'.part) os lazy s (λ _. h) (λ _ _. h)
      (λ done _. record { agrees = refl; unlocked = refl })

-- A fact that each step of a sweep gives of its partition holds of all partitions afterwards.
pub sweep-All :
    {A : Type 0} (P Q : DiskPartitionInfo → Type 0) (body : A → On A)
    → ((a : A) (s : Slot) → P s.part → Q (body a s).1.part)
    → (a : A) (ps : List DiskPartitionInfo) (t : Trace) → All P ps
    → All Q (sweep body a ps t).1
unfolding sweep
sweep-All P Q body step a [] t h = tt
sweep-All P Q body step a (p ∷ ps) t h =
    let s : Slot = record { part = p; trace = t } in
    (step a s h.0, sweep-All P Q body step (body a s).0 ps (body a s).1.trace h.1)

-- A lazy unmount of all partitions leaves none that counts as mounted.
umount_all_partition-lazy :
    (os : Os) (d : Dev)
    → All (λ p. p.is_mounted ≡ false) (umount_all_partition os true d).1.partitions
unfolding umount_all_partition on_partitions
umount_all_partition-lazy os d =
    sweep-All (λ p. Unit {0}) (λ p. p.is_mounted ≡ false) (umount_one os true)
      (λ a s h. unmounted_of_lazy os _ _ _ (umount_partition-IsUmountOf os true s)) success
      d.partitions d.trace (All-true d.partitions)
  where
    All-true : (ps : List DiskPartitionInfo) → All (λ p. Unit {0}) ps
    All-true [] = tt
    All-true (p ∷ ps) = (tt, All-true ps)

sweep-umount_one :
    (os : Os) (lazy : Bool) (a : PdmDevStatus) (ps : List DiskPartitionInfo) (t : Trace)
    → is_success (sweep (umount_one os lazy) a ps t).0 ≡ true
    → (is_success a ≡ true) × All (λ p. p.is_mounted ≡ false) (sweep (umount_one os lazy) a ps t).1
unfolding sweep
sweep-umount_one os lazy a [] t h = (h, tt)
sweep-umount_one os lazy a (p ∷ ps) t h =
    let s : Slot = record { part = p; trace = t } in
    let r = umount_partition os lazy s in
    let a' = if is_success r.0 then a else umount_all_fail in
    let (one, rest) = sweep-umount_one os lazy a' ps r.1.trace h in
    let (ok, kept) = step r.0 a one in
    (kept, (unmounted_of_done os lazy s r.0 _ (umount_partition-IsUmountOf os lazy s) ok, rest))
  where
    step :
        (r a : PdmDevStatus)
        → is_success (if is_success r then a else umount_all_fail) ≡ true
        → (is_success r ≡ true) × (is_success a ≡ true)
    step r a h = elim (Bool-cases (is_success r)) [
      | inl e ↦ (e, subst (λ b. is_success (if b then a else umount_all_fail) ≡ true) e h)
      | inr e ↦ absurd (cc (subst (λ b. is_success (if b then a else umount_all_fail) ≡ true) e h))
    ]

-- If the unmount of all partitions, lazy or not, reports success, then none counts as mounted.
pub umount_all_partition-success :
    (os : Os) (lazy : Bool) (d : Dev)
    → is_success (umount_all_partition os lazy d).0 ≡ true
    → All (λ p. p.is_mounted ≡ false) (umount_all_partition os lazy d).1.partitions
unfolding umount_all_partition on_partitions
umount_all_partition-success os lazy d h =
    (sweep-umount_one os lazy success d.partitions d.trace h).1
