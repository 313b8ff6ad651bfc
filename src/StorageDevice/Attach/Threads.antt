-- ===== src/StorageDevice/Attach/Threads.antt =====
-- The threads that check a new device, interleaved with the loop of setPartitionInfo that starts
-- them: each operation on the atomic count is a move of its own.
pub mod Counts
pub mod Ready
pub mod Together
pub mod Early
use com_webos_service_pdm.Prelude.{ℕ, zero, suc, Bool, true, false, List, [], ◌∷◌, if◌then◌else◌}
use com_webos_service_pdm.Partition.{DiskPartitionInfo}
use com_webos_service_pdm.StorageDevice.State.{Dev}
use com_webos_service_pdm.StorageDevice.Attach.{
  create_thread, raise_count, lower_count, notify_if_last,
}

-- `waiting` are the partitions that the loop has still to visit, and `uncounted` says whether it
-- has created a thread and not yet raised the count. The threads are counted by where they stand:
-- before they lower the count, between that and the test, and at their end.
pub record Threads : Type 0 where
  pub dev : Dev
  pub waiting : List DiskPartitionInfo
  pub uncounted : Bool
  pub checking : ℕ
  pub lowered : ℕ
  pub ended : ℕ

abbrev pub before_loop : List DiskPartitionInfo → Dev → Threads
before_loop ps d = record {
  dev = d;
  waiting = ps;
  uncounted = false;
  checking = 0;
  lowered = 0;
  ended = 0;
}

-- The loop goes on, a thread lowers the count, or a thread that has lowered it tests it.
pub data Move : Type 0 where
  loop : Move
  lower : Move
  test : Move

-- The next operation of the loop.
loop_on : Bool → List DiskPartitionInfo → Threads → Threads
loop_on true ps s = record s { dev = (raise_count s.dev).1; uncounted = false }
loop_on false [] s = s
loop_on false (p ∷ ps) s =
    if p.is_supported_fs
    then record s {
      dev = (create_thread p.drive_name s.dev).1;
      waiting = ps;
      uncounted = true;
      checking = suc s.checking;
    }
    else record s { waiting = ps }

lower_one : ℕ → Threads → Threads
lower_one zero s = s
lower_one (suc n) s = record s {
  dev = (lower_count s.dev).1;
  checking = n;
  lowered = suc s.lowered;
}

test_one : ℕ → Threads → Threads
test_one zero s = s
test_one (suc n) s = record s { dev = (notify_if_last s.dev).1; lowered = n; ended = suc s.ended }

-- A move that none can make changes nothing.
unfoldable pub move : Move → Threads → Threads
unfolding loop_on lower_one test_one
move loop s = loop_on s.uncounted s.waiting s
move lower s = lower_one s.checking s
move test s = test_one s.lowered s

unfoldable pub run : List Move → Threads → Threads
run [] s = s
run (m ∷ ms) s = run ms (move m s)
