-- ===== src/Examples/Queue.antt =====
-- The theorems on the queue of commands at concrete inputs.
use com_webos_service_pdm.Prelude.{ℕ, Bool, true, false, ◌≡◌, refl, List, [], ◌∷◌, some, St, arith}
use com_webos_service_pdm.CommandQueue.{
  waiting, running, returned, Pool, new_pool, enqueue, worker_turn, stop_pool, send_command, turn,
  Step, send, work, destroy, Reach, here, next,
}
use com_webos_service_pdm.CommandQueue.Stop.{pool_drained}
use com_webos_service_pdm.CommandQueue.Drain.{worker_loop, run_all, worker_loop-run_all}
use com_webos_service_pdm.CommandQueue.Spec.{SpecReach, view, pool_refines}

-- One worker: a command is queued, taken and run, and the pool ends.
abbrev idle : Pool ℕ
idle = record { terminate = false; tasks = []; workers = waiting ∷ []; accepted = []; started = [] }

abbrev queued : Pool ℕ
queued = record idle { tasks = 7 ∷ []; accepted = 7 ∷ [] }

abbrev busy : Pool ℕ
busy = record idle { workers = running 7 ∷ []; accepted = 7 ∷ []; started = 7 ∷ [] }

abbrev done : Pool ℕ
done = record busy { workers = waiting ∷ [] }

abbrev stopped : Pool ℕ
stopped = record done { terminate = true }

abbrev ended : Pool ℕ
ended = record stopped { workers = returned ∷ [] }

Reach-ended : Reach (new_pool 1) ended
unfolding new_pool send_command enqueue stop_pool worker_turn
Reach-ended =
    let s1 : Step idle queued = send 7 refl in
    let s2 : Step queued busy = work (turn [] [] waiting (running 7) [] (7 ∷ []) refl refl refl) in
    let s3 : Step busy done = work (turn [] [] (running 7) waiting [] [] refl refl refl) in
    let s4 : Step done stopped = destroy refl in
    let s5 : Step stopped ended = work (turn [] [] waiting returned [] [] refl refl refl) in
    next (next (next (next (next here s1) s2) s3) s4) s5

pool_drained_example : ended.started ≡ ended.accepted
pool_drained_example = pool_drained 1 ended Reach-ended refl (refl, tt)

pool_refines_example : SpecReach (record { closed = false; inputs = []; outputs = [] }) (view ended)
pool_refines_example = pool_refines 1 ended Reach-ended

-- A command that is logged.
abbrev log : ℕ → St (List ℕ) Bool
log a seen = (true, a ∷ seen)

worker_loop-run_all_example :
    worker_loop log 6 (2 ∷ 3 ∷ []) waiting [] ≡ some (run_all log (2 ∷ 3 ∷ []) [])
worker_loop-run_all_example = worker_loop-run_all log (2 ∷ 3 ∷ []) [] 6 (omega arith)
