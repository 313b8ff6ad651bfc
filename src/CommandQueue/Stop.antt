-- ===== src/CommandQueue/Stop.antt =====
-- The end of the pool: what its destructor waits for.
use mathlib.Core.List.{append-nil}
use com_webos_service_pdm.Prelude.{
  ℕ, zero, suc, ◌+◌, ◌*◌, Bool, true, false, ◌≡◌, refl, sym, ap, ◌∙◌, inl, inr, List, [], ◌∷◌, ◌++◌,
  some, is_nil, Bool-cases, subst, arith, All, length,
}
use com_webos_service_pdm.CommandQueue
use com_webos_service_pdm.CommandQueue.{
  Worker, waiting, running, returned, Pool, new_pool, enqueue, worker_turn, stop_pool, send_command,
  Turn, turn, Step, send, work, destroy, Reach, here, next,
}
use com_webos_service_pdm.CommandQueue.Order.{pool-IsInOrder}

module _ {A : Type 0} where
  abbrev pub IsReturned : Worker A → Type 0
  IsReturned w = w ≡ returned

  -- How far the workers are from the end.
  abbrev effort : Worker A → ℕ
  effort waiting = 1
  effort (running a) = 2
  effort returned = 0

  efforts : List (Worker A) → ℕ
  efforts [] = 0
  efforts (w ∷ ws) = effort w + efforts ws

  unfoldable pub weight : Pool A → ℕ
  unfolding efforts
  weight p = 3 * length p.tasks + efforts p.workers

  abbrev CanTurn : Pool A → Type 0
  CanTurn p = (q : Pool A) × Turn p q

  -- `n` turns of the workers, in any order.
  pub data Turns (p : Pool A) : ℕ → Pool A → Type 0 where
    no_turn : Turns p 0 p
    more : {n : ℕ} {q r : Pool A} → Turns p n q → Turn q r → Turns p (suc n) r

  -- A worker has returned only where the pool terminates and no task is left.
  abbrev Returns : Pool A → Worker A → Type 0
  Returns p w = IsReturned w → (p.terminate ≡ true) × (p.tasks ≡ [])

  abbrev IsStopped : Pool A → Type 0
  IsStopped p = All (Returns p) p.workers

  All-map :
      (P Q : Worker A → Type 0)
      → ((w : Worker A) → P w → Q w)
      → (ws : List (Worker A)) → All P ws
      → All Q ws
  All-map P Q f [] h = tt
  All-map P Q f (w ∷ ws) h = (f w h.0, All-map P Q f ws h.1)

  All-replace :
      (P Q : Worker A → Type 0)
      → ((w : Worker A) → P w → Q w)
      → (before after : List (Worker A)) (w w' : Worker A) → Q w'
      → All P (before ++ w ∷ after)
      → All Q (before ++ w' ∷ after)
  All-replace P Q f [] after w w' q h = (q, All-map P Q f after h.1)
  All-replace P Q f (v ∷ before) after w w' q h =
      (f v h.0, All-replace P Q f before after w w' q h.1)

  worker_turn-nil :
      (stop : Bool) (w w' : Worker A) (us new : List A)
      → worker_turn stop [] w ≡ some (w', us, new)
      → us ≡ []
  unfolding worker_turn CommandQueue.take_front
  worker_turn-nil stop waiting w' us new e = ground arith
  worker_turn-nil stop (running a) w' us new e = ground arith
  worker_turn-nil stop returned w' us new e = cc

  worker_turn-returned :
      (stop : Bool) (ts : List A) (w : Worker A) (us new : List A)
      → worker_turn stop ts w ≡ some (returned, us, new)
      → (stop ≡ true) × (us ≡ [])
  unfolding worker_turn CommandQueue.take_front
  worker_turn-returned stop [] waiting us new e = ground arith
  worker_turn-returned stop (a ∷ ts) waiting us new e = ground arith
  worker_turn-returned stop ts (running a) us new e = ground arith
  worker_turn-returned stop ts returned us new e = cc

  Turn-IsStopped : {p q : Pool A} → Turn p q → IsStopped p → IsStopped q
  Turn-IsStopped {p} {q} (turn before after w w' ts new at took e) h =
      let h' : All (Returns p) (before ++ w ∷ after) = subst (All (Returns p)) at h in
      rw e (
        All-replace (Returns p) (λ v. IsReturned v → (p.terminate ≡ true) × (ts ≡ [])) keep before
          after w w' last h')
    where
      keep : (v : Worker A) → Returns p v → IsReturned v → (p.terminate ≡ true) × (ts ≡ [])
      keep v r i =
          let (stop, none_left) = r i in
          (
            stop,
            worker_turn-nil p.terminate w w' ts new
                (subst (λ l. worker_turn p.terminate l w ≡ some (w', ts, new)) none_left took),
          )

      last : IsReturned w' → (p.terminate ≡ true) × (ts ≡ [])
      last i =
          worker_turn-returned p.terminate p.tasks w ts new
            (subst (λ v. worker_turn p.terminate p.tasks w ≡ some (v, ts, new)) i took)

  send_command-IsStopped :
      (a : A) (p : Pool A) → IsStopped p → IsStopped (send_command (some a) p).1
  unfolding send_command CommandQueue.sent enqueue
  send_command-IsStopped a p h = elim (Bool-cases p.terminate) [
    | inl e ↦ simp e h
    | inr e ↦ simp e (All-map (Returns p) _ (λ w r i. cc (e, (r i).0)) p.workers h)
  ]

  Step-IsStopped : {p q : Pool A} → Step p q → IsStopped p → IsStopped q
  unfolding stop_pool
  Step-IsStopped {p} (send a e) h = rw e (send_command-IsStopped a p h)
  Step-IsStopped (work t) h = Turn-IsStopped t h
  Step-IsStopped {p} (destroy e) h =
      rw e (All-map (Returns p) _ (λ w r i. (refl, (r i).1)) p.workers h)

  Reach-IsStopped : {p q : Pool A} → IsStopped p → Reach p q → IsStopped q
  Reach-IsStopped h here = h
  Reach-IsStopped h (next r st) = Step-IsStopped st (Reach-IsStopped h r)

  replicate-IsStopped :
      (threads : ℕ) (p : Pool A) → All (Returns p) (CommandQueue.replicate threads waiting)
  replicate-IsStopped zero p = tt
  replicate-IsStopped (suc n) p = ((λ i. cc), replicate-IsStopped n p)

  returned_tasks :
      (p : Pool A)
      → IsStopped p
      → is_nil p.workers ≡ false
      → All IsReturned p.workers
      → p.tasks ≡ []
  returned_tasks p h n r = go p.workers h n r
    where
      go :
          (ws : List (Worker A))
          → All (Returns p) ws
          → is_nil ws ≡ false
          → All IsReturned ws
          → p.tasks ≡ []
      go [] h n r = cc
      go (w ∷ ws) h n r = (h.0 r.0).1

-- In every state that a new pool reaches in which there are workers and all have returned, the
-- tasks that were started are those that were accepted, in this order: none is lost and none is
-- started twice.
pub pool_drained :
    {A : Type 0} (threads : ℕ) (p : Pool A)
    → Reach (new_pool threads) p
    → is_nil p.workers ≡ false
    → All IsReturned p.workers
    → p.started ≡ p.accepted
unfolding new_pool
pool_drained {A} threads p r n d =
    let none_left =
      returned_tasks p (Reach-IsStopped (replicate-IsStopped threads (new_pool {A = A} threads)) r)
        n d in
    sym (pool-IsInOrder threads p r ∙ ap (λ l. p.started ++ l) none_left ∙ append-nil p.started)
