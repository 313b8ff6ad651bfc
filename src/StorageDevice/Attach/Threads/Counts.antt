-- ===== src/StorageDevice/Attach/Threads/Counts.antt =====
-- The count of the threads that check a new device: what the loop, a thread that lowers it and a
-- thread that tests it do to it.
use com_webos_service_pdm.Prelude.{
  ℕ, zero, suc, ◌+◌, false, ◌≡◌, refl, ◌∙◌, ap, pred_lem, succ_lem, suc-eq-zero, List, [], ◌∷◌, ℤ,
  pos, ◌+ℤ◌, ◌==ℤ◌, ◌==◌, any, if◌then◌else◌, if_cases, arith, Bool-cases, inl, inr,
}
use com_webos_service_pdm.Partition.{DiskPartitionInfo}
use com_webos_service_pdm.StorageDevice.State.{Dev}
use com_webos_service_pdm.StorageDevice.Attach
use com_webos_service_pdm.StorageDevice.Attach.{
  start_fsck, create_thread, raise_count, lower_count, notify_if_last, storage_device_notification,
  cancel_connecting_timeout,
}
use com_webos_service_pdm.StorageDevice.Attach.Threads
use com_webos_service_pdm.StorageDevice.Attach.Threads.{
  Threads, before_loop, Move, loop, lower, test, move, run,
}

abbrev pub set_count : ℤ → Dev → Dev
set_count n d = record d { device = record d.device { fsck_thread_count = n } }

-- How many partitions are checked.
unfoldable pub count_supported : List DiskPartitionInfo → ℕ
count_supported [] = 0
count_supported (p ∷ ps) =
    if p.is_supported_fs then suc (count_supported ps) else count_supported ps

-- The moves of the loop alone: two for each thread, and one for each partition that is passed over.
unfoldable pub loop_moves : List DiskPartitionInfo → List Move
loop_moves [] = []
loop_moves (p ∷ ps) =
    if p.is_supported_fs then loop ∷ loop ∷ loop_moves ps else loop ∷ loop_moves ps

-- What a thread that reads 0 does.
abbrev pub report : Dev → Dev
report d = (cancel_connecting_timeout (storage_device_notification d).1).1

unfoldable pub report_times : ℕ → Dev → Dev
report_times zero d = d
report_times (suc k) d = report (report_times k d)

-- The state behind the loop, where no thread has lowered the count yet.
abbrev pub all_checking : ℕ → Dev → Threads
all_checking n d = record {
  dev = d;
  waiting = [];
  uncounted = false;
  checking = n;
  lowered = 0;
  ended = 0;
}

pub run-loop_moves :
    (ps : List DiskPartitionInfo) (d : Dev) (n : ℕ)
    → run (loop_moves ps) (record (before_loop ps d) { checking = n })
      ≡ all_checking (count_supported ps + n) (start_fsck ps d).1
unfolding run loop_moves move Threads.loop_on start_fsck count_supported
run-loop_moves [] d n = ap (λ m. all_checking m d) (omega arith)
run-loop_moves (p ∷ ps) d n = elim (Bool-cases p.is_supported_fs) [
  | inl e ↦ rw e (
      run-loop_moves ps (raise_count (create_thread p.drive_name d).1).1 (suc n)
      ∙ ap (λ m. all_checking m (start_fsck ps (raise_count (create_thread p.drive_name d).1).1).1)
          (omega arith))
  | inr e ↦ rw e (run-loop_moves ps d n)
]

pub start_fsck-count :
    (ps : List DiskPartitionInfo) (d : Dev) (n : ℕ)
    → d.fsck_thread_count ≡ pos n
    → (start_fsck ps d).1.fsck_thread_count ≡ pos (n + count_supported ps)
unfolding start_fsck count_supported create_thread raise_count
start_fsck-count [] d n e = e ∙ ap pos (omega arith)
start_fsck-count (p ∷ ps) d n e = elim (Bool-cases p.is_supported_fs) [
  | inl h ↦
      rw h
        (start_fsck-count ps _ (n + 1) (ap (λ z. z +ℤ pos 1) e ∙ succ_lem n) ∙ ap pos (omega arith))
  | inr h ↦ rw h (start_fsck-count ps d n e)
]

report-count : (d : Dev) → (report d).fsck_thread_count ≡ d.fsck_thread_count
unfolding cancel_connecting_timeout storage_device_notification
report-count d = cancelled (storage_device_notification d).1 ∙ told
  where
    Same : Unit {0} × Dev → Type 0
    Same r = r.1.fsck_thread_count ≡ d.fsck_thread_count

    cancelled : (e : Dev) → (cancel_connecting_timeout e).1.fsck_thread_count ≡ e.fsck_thread_count
    cancelled e =
        if_cases (λ (r : Unit {0} × Dev). r.1.fsck_thread_count ≡ e.fsck_thread_count)
          (e.timeout_id == 0) (λ _. refl) (λ _. refl)

    told : (storage_device_notification d).1.fsck_thread_count ≡ d.fsck_thread_count
    told =
        if_cases Same (any Attach.is_timed_out d.partitions) (λ _. refl)
          (λ _. if_cases Same (any Attach.is_mounted d.partitions) (λ _. refl) (λ _. refl))

pub report_times-count :
    (k : ℕ) (d : Dev) → (report_times k d).fsck_thread_count ≡ d.fsck_thread_count
unfolding report_times
report_times-count zero d = refl
report_times-count (suc k) d = report-count (report_times k d) ∙ report_times-count k d

-- The test of a count that is 0, and of one that is not.
pub notify_if_last-zero : (d : Dev) → d.fsck_thread_count ≡ pos 0 → (notify_if_last d).1 ≡ report d
unfolding notify_if_last
notify_if_last-zero d e =
    if_cases (λ (r : Unit {0} × Dev). r.1 ≡ report d) (d.fsck_thread_count ==ℤ pos 0) (λ _. refl)
      (λ f. absurd (cc (f, ap (λ z. z ==ℤ pos 0) e)))

pub notify_if_last-suc :
    (m : ℕ) (d : Dev) → (notify_if_last (set_count (pos (suc m)) d)).1 ≡ set_count (pos (suc m)) d
unfolding notify_if_last
notify_if_last-suc m d = rw (suc-eq-zero m) refl

pub lower_count-suc :
    (m : ℕ) (d : Dev) → (lower_count (set_count (pos (suc m)) d)).1 ≡ set_count (pos m) d
unfolding lower_count
lower_count-suc m d = ap (λ z. set_count z d) (pred_lem m)
