-- ===== src/StorageDevice/Attach/Threads/Early.antt =====
-- The threads that check a new device, where each ends before the loop raises the count for it.
use com_webos_service_pdm.Prelude.{
  ℕ, suc, ◌+◌, ◌≡◌, refl, sym, ◌∙◌, ap, subst, List, [], ◌∷◌, ℤ, pos, if◌then◌else◌, arith,
  Bool-cases, inl, inr,
}
use com_webos_service_pdm.Partition.{DiskPartitionInfo}
use com_webos_service_pdm.StorageDevice.State.{Dev}
use com_webos_service_pdm.StorageDevice.Attach.{
  create_thread, raise_count, lower_count, notify_if_last,
}
use com_webos_service_pdm.StorageDevice.Attach.Threads
use com_webos_service_pdm.StorageDevice.Attach.Threads.{
  Threads, before_loop, Move, loop, lower, test, move, run,
}
use com_webos_service_pdm.StorageDevice.Attach.Threads.Counts.{set_count, count_supported}

-- The loop, where each thread is at its end before the loop raises the count for it.
pub early_moves : List DiskPartitionInfo → List Move
early_moves [] = []
early_moves (p ∷ ps) =
    if p.is_supported_fs then loop ∷ lower ∷ test ∷ loop ∷ early_moves ps else loop ∷ early_moves ps

-- What creating the threads leaves, with no count taken.
pub created : List DiskPartitionInfo → Dev → Dev
created [] d = d
created (p ∷ ps) d =
    let d' = (create_thread p.drive_name d).1 in created ps (if p.is_supported_fs then d' else d)

-- A thread that lowers and tests a count of 0 before the loop raises it leaves no trace.
unnoticed :
    (d : Dev)
    → d.fsck_thread_count ≡ pos 0
    → (raise_count (notify_if_last (lower_count d).1).1).1 ≡ d
unfolding raise_count notify_if_last lower_count
unnoticed d e = subst IsUnnoticed (sym e) refl
  where
    IsUnnoticed : ℤ → Type 0
    IsUnnoticed z =
        (raise_count (notify_if_last (lower_count (set_count z d)).1).1).1 ≡ set_count z d

run-early_moves :
    (ps : List DiskPartitionInfo) (d : Dev) (k : ℕ)
    → d.fsck_thread_count ≡ pos 0
    → run (early_moves ps) (record (before_loop ps d) { ended = k })
      ≡ record (before_loop [] (created ps d)) { ended = count_supported ps + k }
unfolding run early_moves move Threads.loop_on Threads.lower_one Threads.test_one created
    count_supported create_thread
run-early_moves [] d k e = ap (λ (n : ℕ). record (before_loop [] d) { ended = n }) (omega arith)
run-early_moves (p ∷ ps) d k e = elim (Bool-cases p.is_supported_fs) [
  | inr h ↦ rw h (run-early_moves ps d k e)
  | inl h ↦
      let d' = (create_thread p.drive_name d).1 in
      rw h (
        ap (λ (x : Dev). run (early_moves ps) (record (before_loop ps x) { ended = suc k }))
          (unnoticed d' e)
        ∙ run-early_moves ps d' (suc k) e
        ∙ ap (λ (n : ℕ). record (before_loop [] (created ps d')) { ended = n }) (omega arith))
]

-- Where a device has no check running and each thread lowers and tests the count before the loop
-- raises it for that thread, then all threads end, the count is 0 again, and the device is as
-- creating the threads left it: the notification is never made.
pub fsck_notification-early :
    (ps : List DiskPartitionInfo) (d : Dev)
    → d.fsck_thread_count ≡ pos 0
    → run (early_moves ps) (before_loop ps d)
      ≡ record (before_loop [] (created ps d)) { ended = count_supported ps }
fsck_notification-early ps d e =
    run-early_moves ps d 0 e
    ∙ ap (λ (n : ℕ). record (before_loop [] (created ps d)) { ended = n }) (omega arith)
