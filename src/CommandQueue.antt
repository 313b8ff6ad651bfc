-- ===== src/CommandQueue.antt =====
-- inc/private/PdmThreadPool.h and framework/CommandManager.cpp: the queue of commands and the
-- workers that take them. A step of the pool is one critical section, or one task run to its end.
pub mod Order
pub mod Stop
pub mod Drain
pub mod Spec
use com_webos_service_pdm.Prelude.{
  ℕ, zero, suc, Bool, true, false, not, ◌||◌, ◌&&◌, ◌≡◌, List, [], ◌∷◌, ◌++◌, Option, none, some,
  is_nil, St, if◌then◌else◌,
}

-- Where a worker stands in its loop.
pub data Worker (A : Type 0) : Type 0 where
  waiting : Worker A
  running : A → Worker A
  returned : Worker A

-- `accepted` and `started` record the tasks in the order in which they were queued and taken.
pub record Pool (A : Type 0) : Type 0 where
  pub terminate : Bool
  pub tasks : List A
  pub workers : List (Worker A)
  pub accepted : List A
  pub started : List A

module _ {A : Type 0} where
  abbrev pub replicate : ℕ → Worker A → List (Worker A)
  replicate zero w = []
  replicate (suc n) w = w ∷ replicate n w

  -- The constructor.
  unfoldable pub new_pool : ℕ → Pool A
  new_pool threads = record {
    terminate = false;
    tasks = [];
    workers = replicate threads waiting;
    accepted = [];
    started = [];
  }

  -- enqueue, which throws (`none`) once the pool terminates.
  unfoldable pub enqueue : A → Pool A → Option (Pool A)
  enqueue a p =
      if p.terminate
      then none
      else some (record p { tasks = p.tasks ++ a ∷ []; accepted = p.accepted ++ a ∷ [] })

  -- A worker that takes the front task: where it then stands, what is left, and what it took.
  take_front : List A → Option (Worker A × List A × List A)
  take_front [] = none
  take_front (a ∷ ts) = some (running a, ts, a ∷ [])

  -- One round of a worker's loop up to the task, or the task; `none` where it has to wait or has
  -- returned.
  unfoldable pub worker_turn : Bool → List A → Worker A → Option (Worker A × List A × List A)
  unfolding take_front
  worker_turn stop ts waiting =
      if not (stop || not (is_nil ts))
      then none
      else if stop && is_nil ts
      then some (returned, ts, [])
      else take_front ts
  worker_turn stop ts (running a) = some (waiting, ts, [])
  worker_turn stop ts returned = none

  -- The first part of the destructor; it then waits for the workers.
  unfoldable pub stop_pool : Pool A → Pool A
  stop_pool p = record p { terminate = true }

  -- CommandManager::sendCommand, of a command or of a null pointer.
  sent : Pool A → Option (Pool A) → Bool × Pool A
  sent p none = (false, p)
  sent p (some q) = (true, q)

  unfoldable pub send_command : Option A → St (Pool A) Bool
  unfolding sent
  send_command none p = (false, p)
  send_command (some a) p = sent p (enqueue a p)

  -- A worker of the pool makes a turn.
  pub data Turn (p : Pool A) (q : Pool A) : Type 0 where
    turn :
        (before after : List (Worker A)) (w w' : Worker A) (ts new : List A)
        → p.workers ≡ before ++ w ∷ after
        → worker_turn p.terminate p.tasks w ≡ some (w', ts, new)
        → q ≡ record p { tasks = ts; workers = before ++ w' ∷ after; started = p.started ++ new }
        → Turn p q

  -- A client, a worker or the destructor makes a step.
  pub data Step (p : Pool A) (q : Pool A) : Type 0 where
    send : (a : A) → q ≡ (send_command (some a) p).1 → Step p q
    work : Turn p q → Step p q
    destroy : q ≡ stop_pool p → Step p q

  pub data Reach (p : Pool A) : Pool A → Type 0 where
    here : Reach p p
    next : {q r : Pool A} → Reach p q → Step q r → Reach p r

-- CommandManager::executeCommand; `execute` says whether the command ends without an exception.
unfoldable pub execute_command : {A W : Type 0} → (A → St W Bool) → Option A → St W Bool
execute_command execute none w = (false, w)
execute_command execute (some a) w = let (ended, w') = execute a w in (true, w')
