-- ===== src/StorageDevice/Attach/Threads/Ready.antt =====
-- The notification behind the last thread, in any order in which the threads lower and test the
-- count.
use com_webos_service_pdm.Prelude.{
  ℕ, zero, suc, ◌+◌, ◌≤◌, Bool, true, false, ◌≡◌, refl, ◌∙◌, ap, List, [], ◌∷◌, pos, arith,
}
use com_webos_service_pdm.Partition.{DiskPartitionInfo}
use com_webos_service_pdm.StorageDevice.State.{Dev}
use com_webos_service_pdm.StorageDevice.Attach.{start_fsck, lower_count, notify_if_last}
use com_webos_service_pdm.StorageDevice.Attach.Threads
use com_webos_service_pdm.StorageDevice.Attach.Threads.{
  Threads, before_loop, Move, loop, lower, test, move, run,
}
use com_webos_service_pdm.StorageDevice.Attach.Threads.Counts.{
  set_count, count_supported, loop_moves, report_times, all_checking, run-loop_moves,
  start_fsck-count, report_times-count, notify_if_last-zero, notify_if_last-suc, lower_count-suc,
}

module _ (base : Dev) (n : ℕ) where
  -- Behind the loop: either a thread has still to lower the count and nothing was told, or all have
  -- and every test behind the last of them tells.
  data IsEnding (s : Threads) : Type 0 where
    some_checking :
        (m : ℕ)
        → s.checking ≡ suc m
        → s.dev ≡ set_count (pos (suc m)) base
        → suc m + s.lowered ≤ n
        → IsEnding s
    none_checking :
        (k : ℕ)
        → s.checking ≡ 0
        → s.dev ≡ report_times k (set_count (pos 0) base)
        → 1 ≤ k + s.lowered
        → k + s.lowered ≤ n
        → IsEnding s

  lower_one-IsEnding :
      (c : ℕ) (s : Threads) → s.checking ≡ c → IsEnding s → IsEnding (Threads.lower_one c s)
  unfolding Threads.lower_one report_times
  lower_one-IsEnding zero s e i = i
  lower_one-IsEnding (suc c) s e (none_checking k z d l u) = absurd (omega (arith, e, z))
  lower_one-IsEnding (suc zero) s e (some_checking m z d u) =
      none_checking 0 refl
        (ap (λ x. (lower_count x).1) d
          ∙ lower_count-suc m base
          ∙ ap (λ x. set_count (pos x) base) (omega (arith, e, z)))
        (omega arith) (omega (arith, u))
  lower_one-IsEnding (suc (suc c)) s e (some_checking m z d u) =
      some_checking c refl
        (ap (λ x. (lower_count x).1) d
          ∙ lower_count-suc m base
          ∙ ap (λ x. set_count (pos x) base) (omega (arith, e, z)))
        (omega (arith, e, z, u))

  test_one-IsEnding :
      (l : ℕ) (s : Threads) → s.lowered ≡ l → IsEnding s → IsEnding (Threads.test_one l s)
  unfolding Threads.test_one report_times
  test_one-IsEnding zero s e i = i
  test_one-IsEnding (suc l) s e (some_checking m z d u) =
      some_checking m z (ap (λ x. (notify_if_last x).1) d ∙ notify_if_last-suc m base)
        (omega (arith, e, u))
  test_one-IsEnding (suc l) s e (none_checking k z d a b) =
      none_checking (suc k) z
        (ap (λ x. (notify_if_last x).1) d
          ∙ notify_if_last-zero _ (report_times-count k (set_count (pos 0) base)))
        (omega arith) (omega (arith, e, b))

  loop_on-id :
      (b : Bool) (ps : List DiskPartitionInfo) (s : Threads)
      → b ≡ false
      → ps ≡ []
      → Threads.loop_on b ps s ≡ s
  unfolding Threads.loop_on
  loop_on-id false [] s e h = refl
  loop_on-id false (p ∷ ps) s e h = absurd (cc h)
  loop_on-id true ps s e h = absurd (cc e)

  -- The loop is at its end.
  record IsBehind (s : Threads) : Type 0 where
    counted : s.uncounted ≡ false
    visited : s.waiting ≡ []
    ending : IsEnding s

  move-IsBehind : (m : Move) (s : Threads) → IsBehind s → IsBehind (move m s)
  unfolding move Threads.lower_one Threads.test_one
  move-IsBehind loop s i = rw (loop_on-id s.uncounted s.waiting s i.counted i.visited) i
  move-IsBehind lower s i = record {
    counted = kept s.checking;
    visited = kept' s.checking;
    ending = lower_one-IsEnding s.checking s refl i.ending;
  }
    where
      kept : (c : ℕ) → (Threads.lower_one c s).uncounted ≡ false
      kept zero = i.counted
      kept (suc c) = i.counted

      kept' : (c : ℕ) → (Threads.lower_one c s).waiting ≡ []
      kept' zero = i.visited
      kept' (suc c) = i.visited
  move-IsBehind test s i = record {
    counted = kept s.lowered;
    visited = kept' s.lowered;
    ending = test_one-IsEnding s.lowered s refl i.ending;
  }
    where
      kept : (c : ℕ) → (Threads.test_one c s).uncounted ≡ false
      kept zero = i.counted
      kept (suc c) = i.counted

      kept' : (c : ℕ) → (Threads.test_one c s).waiting ≡ []
      kept' zero = i.visited
      kept' (suc c) = i.visited

  run-IsBehind : (ms : List Move) (s : Threads) → IsBehind s → IsBehind (run ms s)
  unfolding run
  run-IsBehind [] s i = i
  run-IsBehind (m ∷ ms) s i = run-IsBehind ms (move m s) (move-IsBehind m s i)

  -- The observers were told at least once, and at most once for each thread, with the count at 0.
  pub record IsNotified (s : Threads) : Type 0 where
    pub times : ℕ
    pub once : 1 ≤ times
    pub bounded : times ≤ n
    pub told : s.dev ≡ report_times times (set_count (pos 0) base)

  ended-IsNotified : (s : Threads) → s.checking ≡ 0 → s.lowered ≡ 0 → IsEnding s → IsNotified s
  ended-IsNotified s c l (some_checking m z d u) = absurd (omega (arith, c, z))
  ended-IsNotified s c l (none_checking k z d a b) = record {
    times = k;
    once = omega (arith, a, l);
    bounded = omega (arith, b, l);
    told = d;
  }

-- Where a device has no check running, the loop starts at least one, and no thread lowers the count
-- before the loop is at its end, then, in whatever order the threads then lower and test the count,
-- once all have done both the notification was made at least once and at most once for each thread,
-- each time with the count at 0, and nothing else was done to the device.
pub run_threads-IsNotified :
    (ps : List DiskPartitionInfo) (d : Dev) (n : ℕ) (ms : List Move)
    → d.fsck_thread_count ≡ pos 0
    → count_supported ps ≡ suc n
    → (run ms (run (loop_moves ps) (before_loop ps d))).checking ≡ 0
    → (run ms (run (loop_moves ps) (before_loop ps d))).lowered ≡ 0
    → IsNotified (start_fsck ps d).1 (suc n) (run ms (run (loop_moves ps) (before_loop ps d)))
run_threads-IsNotified ps d n ms e h c l =
    ended-IsNotified (start_fsck ps d).1 (suc n) _ c l
      (run-IsBehind (start_fsck ps d).1 (suc n) ms _ behind).ending
  where
    started : Threads
    started = all_checking (suc n) (start_fsck ps d).1

    at : run (loop_moves ps) (before_loop ps d) ≡ started
    at = run-loop_moves ps d 0 ∙ ap (λ m. all_checking m (start_fsck ps d).1) (omega (arith, h))

    counted : (start_fsck ps d).1.fsck_thread_count ≡ pos (suc n)
    counted = start_fsck-count ps d 0 e ∙ ap pos (omega (arith, h))

    behind : IsBehind (start_fsck ps d).1 (suc n) (run (loop_moves ps) (before_loop ps d))
    behind = rw at (record {
      counted = refl;
      visited = refl;
      ending =
          some_checking n refl (ap (λ z. set_count z (start_fsck ps d).1) counted) (omega arith);
    })
