-- ===== src/CommandQueue/Spec.antt =====
-- What the pool promises: tasks are accepted until it is closed, and are started in the order in
-- which they were accepted, each at most once.
use mathlib.Core.List.{append-nil}
use com_webos_service_pdm.Prelude.{
  arith, ℕ, Bool, true, false, ◌≡◌, refl, ap, ◌∙◌, ◌⊎◌, List, [], ◌∷◌, ◌++◌, some, Bool-cases, inl,
  inr,
}
use com_webos_service_pdm.CommandQueue
use com_webos_service_pdm.CommandQueue.{
  Worker, waiting, running, returned, Pool, new_pool, enqueue, worker_turn, stop_pool, send_command,
  Turn, turn, Step, send, work, destroy, Reach, here, next,
}
use com_webos_service_pdm.CommandQueue.Order.{IsInOrder, Reach-IsInOrder}

-- Neither a queue nor workers: what was accepted and what was started, to the outside.
pub record Spec (A : Type 0) : Type 0 where
  pub closed : Bool
  pub inputs : List A
  pub outputs : List A

module _ {A : Type 0} where
  pub data SpecStep (s : Spec A) (t : Spec A) : Type 0 where
    accept :
        (a : A) → s.closed ≡ false → t ≡ record s { inputs = s.inputs ++ a ∷ [] } → SpecStep s t
    start :
        (a : A) (rest : List A)
        → s.inputs ≡ s.outputs ++ a ∷ rest
        → t ≡ record s { outputs = s.outputs ++ a ∷ [] }
        → SpecStep s t
    close : t ≡ record s { closed = true } → SpecStep s t
    stay : t ≡ s → SpecStep s t

  pub data SpecReach (s : Spec A) : Spec A → Type 0 where
    begin : SpecReach s s
    then_step : {t u : Spec A} → SpecReach s t → SpecStep t u → SpecReach s u

  abbrev pub view : Pool A → Spec A
  view p = record { closed = p.terminate; inputs = p.accepted; outputs = p.started }

  -- A turn starts the front task or none.
  abbrev Taken : List A → List A → List A → Type 0
  Taken ts us new = (new ≡ []) ⊎ ((a : A) × (new ≡ a ∷ []) × (ts ≡ a ∷ us))

  worker_turn-Taken :
      (stop : Bool) (ts : List A) (w w' : Worker A) (us new : List A)
      → worker_turn stop ts w ≡ some (w', us, new)
      → Taken ts us new
  unfolding worker_turn CommandQueue.take_front
  worker_turn-Taken stop [] waiting w' us new e = inl (ground arith)
  worker_turn-Taken stop (a ∷ ts) waiting w' us new e = inr (a, ground arith, ground arith)
  worker_turn-Taken stop ts (running a) w' us new e = inl (ground arith)
  worker_turn-Taken stop ts returned w' us new e = cc

  send-SpecStep : (a : A) (p : Pool A) → SpecStep (view p) (view (send_command (some a) p).1)
  unfolding send_command CommandQueue.sent enqueue
  send-SpecStep a p = elim (Bool-cases p.terminate) [
    | inl e ↦ simp e (stay refl)
    | inr e ↦ simp e (accept a refl refl)
  ]

  Step-SpecStep : {p q : Pool A} → IsInOrder p → Step p q → SpecStep (view p) (view q)
  unfolding stop_pool
  Step-SpecStep {p} o (send a e) = rw e (send-SpecStep a p)
  Step-SpecStep {p} o (work (turn before after w w' ts new at took e)) =
      elim (worker_turn-Taken p.terminate p.tasks w w' ts new took) [
        | inl n ↦ stay (rw (e, n, append-nil p.started) refl)
        | inr (a, n, front) ↦ start a ts (o ∙ ap (λ l. p.started ++ l) front) (rw (e, n) refl)
      ]
  Step-SpecStep o (destroy e) = close (rw e refl)

  Reach-SpecReach : {p q : Pool A} → IsInOrder p → Reach p q → SpecReach (view p) (view q)
  Reach-SpecReach o here = begin
  Reach-SpecReach o (next r st) =
      then_step (Reach-SpecReach o r) (Step-SpecStep (Reach-IsInOrder o r) st)

-- Every run of a new pool, with any number of workers, clients and an end, is to the outside a run
-- of the specification: a task is accepted only while the pool is not closed, and what is started
-- next is the first of the accepted tasks that was not started.
pub pool_refines :
    {A : Type 0} (threads : ℕ) (p : Pool A)
    → Reach (new_pool threads) p
    → SpecReach (record { closed = false; inputs = []; outputs = [] }) (view p)
unfolding new_pool
pool_refines threads p r = Reach-SpecReach refl r
