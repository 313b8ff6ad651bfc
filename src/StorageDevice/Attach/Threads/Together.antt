-- ===== src/StorageDevice/Attach/Threads/Together.antt =====
-- The threads that check a new device, where all of them lower the count before one tests it.
use com_webos_service_pdm.Prelude.{ℕ, zero, suc, ◌+◌, ◌≡◌, ◌∙◌, ap, List, [], ◌∷◌, pos, arith}
use com_webos_service_pdm.Partition.{DiskPartitionInfo}
use com_webos_service_pdm.StorageDevice.State.{Dev}
use com_webos_service_pdm.StorageDevice.Attach.{start_fsck}
use com_webos_service_pdm.StorageDevice.Attach.Threads
use com_webos_service_pdm.StorageDevice.Attach.Threads.{
  Threads, before_loop, Move, loop, lower, test, move, run,
}
use com_webos_service_pdm.StorageDevice.Attach.Threads.Counts.{
  set_count, count_supported, loop_moves, report_times, all_checking, run-loop_moves,
  start_fsck-count, report_times-count, notify_if_last-zero, lower_count-suc,
}

lowers : ℕ → List Move
lowers zero = []
lowers (suc n) = lower ∷ lowers n

tests : ℕ → List Move
tests zero = []
tests (suc n) = test ∷ tests n

run-lowers :
    (m l : ℕ) (d : Dev)
    → run (lowers m) (record (all_checking m (set_count (pos m) d)) { lowered = l })
      ≡ record (all_checking 0 (set_count (pos 0) d)) { lowered = m + l }
unfolding run lowers move Threads.lower_one
run-lowers zero l d =
    ap (λ (n : ℕ). record (all_checking 0 (set_count (pos 0) d)) { lowered = n }) (omega arith)
run-lowers (suc m) l d =
    ap (λ (x : Dev). run (lowers m) (record (all_checking m x) { lowered = suc l }))
      (lower_count-suc m d)
    ∙ run-lowers m (suc l) d
    ∙ ap (λ (n : ℕ). record (all_checking 0 (set_count (pos 0) d)) { lowered = n }) (omega arith)

run-tests :
    (l k e : ℕ) (d : Dev)
    → (run (tests l) (record (all_checking 0 (report_times k (set_count (pos 0) d))) {
      lowered = l;
      ended = e;
    })).dev
      ≡ report_times (l + k) (set_count (pos 0) d)
unfolding run tests move Threads.test_one report_times
run-tests zero k e d = ap (λ (n : ℕ). report_times n (set_count (pos 0) d)) (omega arith)
run-tests (suc l) k e d =
    ap (λ (x : Dev). (run (tests l) (record (all_checking 0 x) { lowered = l; ended = suc e })).dev)
      (notify_if_last-zero _ (report_times-count k (set_count (pos 0) d)))
    ∙ run-tests l (suc k) (suc e) d
    ∙ ap (λ (n : ℕ). report_times n (set_count (pos 0) d)) (omega arith)

-- The bound is met: where all threads lower the count before the first of them tests it, each one
-- makes the notification.
run_threads-each :
    (ps : List DiskPartitionInfo) (d : Dev)
    → d.fsck_thread_count ≡ pos 0
    → let n = count_supported ps in
      (run (tests n) (run (lowers n) (run (loop_moves ps) (before_loop ps d)))).dev
      ≡ report_times n (set_count (pos 0) (start_fsck ps d).1)
unfolding report_times
run_threads-each ps d e =
    ap (λ (s : Threads). (run (tests n) (run (lowers n) s)).dev) at
    ∙ ap (λ (s : Threads). (run (tests n) s).dev) (run-lowers n 0 (start_fsck ps d).1)
    ∙ ap (λ (m : ℕ). (run (tests n) (record (all_checking 0 done) { lowered = m })).dev)
        (omega arith)
    ∙ run-tests n 0 0 (start_fsck ps d).1
    ∙ ap (λ (m : ℕ). report_times m done) (omega arith)
  where
    n : ℕ
    n = count_supported ps

    done : Dev
    done = set_count (pos 0) (start_fsck ps d).1

    at :
        run (loop_moves ps) (before_loop ps d)
        ≡ all_checking n (set_count (pos n) (start_fsck ps d).1)
    at =
        run-loop_moves ps d 0
        ∙ ap (λ m. all_checking m (start_fsck ps d).1) (omega arith)
        ∙ ap (λ z. all_checking n (set_count z (start_fsck ps d).1))
            (start_fsck-count ps d 0 e ∙ ap pos (omega arith))
