-- ===== src/CommandQueue/Drain.antt =====
-- The only worker of the command manager, once its pool terminates.
use com_webos_service_pdm.Prelude.{
  ℕ, zero, suc, ◌+◌, ◌*◌, ◌≤◌, Bool, true, ◌≡◌, refl, List, [], ◌∷◌, Option, none, some, St, arith,
  length,
}
use com_webos_service_pdm.CommandQueue
use com_webos_service_pdm.CommandQueue.{
  Worker, waiting, running, returned, worker_turn, execute_command,
}

module _ {A W : Type 0} (execute : A → St W Bool) where
  -- What a worker does with the state in a turn: it runs the task that it holds.
  run_task : Worker A → W → W
  run_task waiting w = w
  run_task (running a) w = (execute_command execute (some a) w).1
  run_task returned w = w

  -- What follows a turn: the loop goes on, or ends where no turn is left.
  after_turn :
      (List A → Worker A → W → Option W)
      → Worker A
      → W
      → Option (Worker A × List A × List A)
      → Option W
  unfolding run_task
  after_turn rest s w none = some w
  after_turn rest s w (some (s', ts, new)) = rest ts s' (run_task s w)

  -- The loop of the worker on fuel: `none` where the fuel ends first.
  unfoldable pub worker_loop : ℕ → List A → Worker A → W → Option W
  unfolding after_turn
  worker_loop zero ts s w = none
  worker_loop (suc fuel) ts s w = after_turn (worker_loop fuel) s w (worker_turn true ts s)

  -- The commands one after the other, whether or not they throw.
  unfoldable pub run_all : List A → W → W
  run_all [] w = w
  run_all (a ∷ ts) w = run_all ts (execute a w).1

-- The loop of a worker that waits in a pool that terminates, given fuel for two turns of each task
-- and two more, ends, and has run the tasks of the queue one after the other in their order,
-- whether or not a command throws.
pub worker_loop-run_all :
    {A W : Type 0} (execute : A → St W Bool) (ts : List A) (w : W) (fuel : ℕ)
    → 2 * length ts + 2 ≤ fuel
    → worker_loop execute fuel ts waiting w ≡ some (run_all execute ts w)
unfolding worker_loop run_all worker_turn after_turn run_task CommandQueue.take_front
    execute_command
worker_loop-run_all execute [] w (suc (suc fuel)) h = refl
worker_loop-run_all execute (a ∷ ts) w (suc (suc fuel)) h =
    worker_loop-run_all execute ts (execute a w).1 fuel (omega arith)
worker_loop-run_all execute ts w zero h = absurd (omega arith)
worker_loop-run_all execute ts w (suc zero) h = absurd (omega arith)
