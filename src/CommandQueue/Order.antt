-- ===== src/CommandQueue/Order.antt =====
-- The order of the tasks in any run of the pool.
use mathlib.Core.List.{append_assoc}
use com_webos_service_pdm.Prelude.{
  ℕ, Bool, ◌≡◌, refl, sym, ap, ◌∙◌, List, [], ◌∷◌, ◌++◌, some, Bool-cases, inl, inr, arith,
}
use com_webos_service_pdm.CommandQueue
use com_webos_service_pdm.CommandQueue.{
  Worker, waiting, running, returned, Pool, new_pool, enqueue, worker_turn, stop_pool, send_command,
  Turn, turn, Step, send, work, destroy, Reach, here, next,
}

module _ {A : Type 0} where
  -- A worker takes what stood in front of the queue.
  pub worker_turn-append :
      (stop : Bool) (ts : List A) (w w' : Worker A) (bs new : List A)
      → worker_turn stop ts w ≡ some (w', bs, new)
      → ts ≡ new ++ bs
  unfolding worker_turn CommandQueue.take_front
  worker_turn-append stop [] waiting w' bs new e = ground arith
  worker_turn-append stop (a ∷ ts) waiting w' bs new e = ground arith
  worker_turn-append stop ts (running a) w' bs new e = ground arith
  worker_turn-append stop ts returned w' bs new e = cc

  -- The tasks that were accepted are those that were started and those that wait, in this order.
  abbrev pub IsInOrder : Pool A → Type 0
  IsInOrder p = p.accepted ≡ p.started ++ p.tasks

  send_command-IsInOrder :
      (a : A) (p : Pool A) → IsInOrder p → IsInOrder (send_command (some a) p).1
  unfolding send_command CommandQueue.sent enqueue
  send_command-IsInOrder a p h = elim (Bool-cases p.terminate) [
    | inl e ↦ simp e h
    | inr e ↦ simp e (ap (λ l. l ++ a ∷ []) h ∙ append_assoc p.started p.tasks (a ∷ []))
  ]

  Step-IsInOrder : {p q : Pool A} → Step p q → IsInOrder p → IsInOrder q
  unfolding stop_pool
  Step-IsInOrder {p} (send a e) h = rw e (send_command-IsInOrder a p h)
  Step-IsInOrder {p} (work (turn before after w w' ts new at took e)) h = rw e (
      h
      ∙ ap (λ l. p.started ++ l) (worker_turn-append p.terminate p.tasks w w' ts new took)
      ∙ sym (append_assoc p.started new ts))
  Step-IsInOrder (destroy e) h = rw e h

  pub Reach-IsInOrder : {p q : Pool A} → IsInOrder p → Reach p q → IsInOrder q
  Reach-IsInOrder h here = h
  Reach-IsInOrder h (next r st) = Step-IsInOrder st (Reach-IsInOrder h r)

-- In every state that a new pool reaches, the tasks that were accepted are those that were started
-- and those that wait, in this order.
pub pool-IsInOrder :
    {A : Type 0} (threads : ℕ) (p : Pool A) → Reach (new_pool threads) p → IsInOrder p
unfolding new_pool
pool-IsInOrder threads p r = Reach-IsInOrder refl r
