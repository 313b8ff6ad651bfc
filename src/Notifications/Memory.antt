-- ===== src/Notifications/Memory.antt =====
-- What is written to the shared memory, and what the reader of a signal finds there.
use com_webos_service_pdm.Prelude.{
  ℕ, zero, suc, ◌≤◌, ltb, ◌==◌, false, ◌≡◌, refl, ap, ◌∙◌, List, [], ◌∷◌, Option, none, some, All,
  arith, length, if_cases,
}
use com_webos_service_pdm.Notifications.{
  PdmEvent, Parameters, Environment, Manager, Sent, signal, shm_size, memcpy, send_alert_info,
  write_payload,
}

-- The bytes that the reader takes.
pub take : ℕ → List ℕ → List ℕ
take zero bs = []
take (suc n) [] = []
take (suc n) (b ∷ bs) = b ∷ take n bs

pub length-memcpy :
    (bytes mem : List ℕ) → length bytes ≤ length mem → length (memcpy bytes mem) ≡ length mem
unfolding memcpy
length-memcpy [] mem h = refl
length-memcpy (b ∷ bs) [] h = absurd (omega arith)
length-memcpy (b ∷ bs) (c ∷ mem) h = ap suc (length-memcpy bs mem (omega arith))

take-memcpy : (bytes mem : List ℕ) → take (length bytes) (memcpy bytes mem) ≡ bytes
unfolding take memcpy
take-memcpy [] mem = refl
take-memcpy (b ∷ bs) [] = ap (λ l. b ∷ l) (take-memcpy bs [])
take-memcpy (b ∷ bs) (c ∷ mem) = ap (λ l. b ∷ l) (take-memcpy bs mem)

-- Behind a longer payload, as many bytes as are asked for are that payload's.
take-memcpy_shorter :
    (n : ℕ) (bytes mem : List ℕ) → n ≤ length bytes → take n (memcpy bytes mem) ≡ take n bytes
unfolding take memcpy
take-memcpy_shorter zero bytes mem h = refl
take-memcpy_shorter (suc n) [] mem h = absurd (omega arith)
take-memcpy_shorter (suc n) (b ∷ bs) [] h =
    ap (λ l. b ∷ l) (take-memcpy_shorter n bs [] (omega arith))
take-memcpy_shorter (suc n) (b ∷ bs) (c ∷ mem) h =
    ap (λ l. b ∷ l) (take-memcpy_shorter n bs mem (omega arith))

-- What the reader of the signal `s` takes from the memory.
abbrev pub read_signal : Sent → Option (List ℕ) → List ℕ
read_signal (signal pid n) none = []
read_signal (signal pid n) (some mem) = take n mem

abbrev pub HasMemory : Option (List ℕ) → Type 0
HasMemory none = Unit
HasMemory (some mem) = length mem ≡ shm_size

abbrev Fits : Sent → Type 0
Fits (signal pid n) = n ≤ shm_size

-- The memory keeps its size, and no signal says more than that.
pub record IsBounded (m : Manager) : Type 0 where
  pub mapped : HasMemory m.memory
  pub fits : All Fits m.sent

module _ (env : Environment) (event : PdmEvent) (parameters : Parameters) where
  abbrev payload : List ℕ
  payload = env.stringify event parameters

  write_payload-IsBounded :
      (bytes : List ℕ) (o : Option (List ℕ)) (m : Manager)
      → HasMemory o
      → IsBounded m
      → IsBounded (write_payload env bytes o m)
  unfolding write_payload
  write_payload-IsBounded bytes none m o b = b
  write_payload-IsBounded bytes (some mem) m o b =
      if_cases IsBounded (ltb shm_size (length bytes)) (λ _. b)
        (λ e.
          let fits : length bytes ≤ shm_size = ground arith in
          let mapped : length (memcpy bytes mem) ≡ shm_size =
            length-memcpy bytes mem (omega arith) ∙ o in
          if_cases IsBounded (env.event_monitor == 0)
            (λ _. record { mapped = mapped; fits = b.fits })
            (λ _. record { mapped = mapped; fits = (fits, b.fits) }))

  pub send_alert_info-IsBounded :
      (m : Manager) → IsBounded m → IsBounded (send_alert_info env event parameters m)
  unfolding send_alert_info
  send_alert_info-IsBounded m b = write_payload-IsBounded payload m.memory m b.mapped b

-- What a sent alert leaves: a signal, and the payload where the reader looks.
pub record IsSent (env : Environment) (bytes : List ℕ) (m m' : Manager) : Type 0 where
  pub told : m'.sent ≡ signal env.event_monitor (length bytes) ∷ m.sent
  pub found : read_signal (signal env.event_monitor (length bytes)) m'.memory ≡ bytes

-- Where the shared memory is mapped, event-monitor runs and the payload is not longer than the
-- memory, an alert calls sigqueue once with the length of the payload, and the reader that takes as
-- many bytes from the memory finds the payload.
pub send_alert_info-IsSent :
    (env : Environment) (event : PdmEvent) (parameters : Parameters) (m : Manager) (mem : List ℕ)
    → m.memory ≡ some mem
    → (env.event_monitor == 0) ≡ false
    → ltb shm_size (length (env.stringify event parameters)) ≡ false
    → IsSent env (env.stringify event parameters) m (send_alert_info env event parameters m)
unfolding send_alert_info write_payload
send_alert_info-IsSent env event parameters m mem e p s =
    simp (e, p, s)
      (record { told = refl; found = take-memcpy (env.stringify event parameters) mem })

-- Where two alerts are sent before the reader handles the first, and both payloads fit and the
-- second is not shorter, then sigqueue is called for both, and the reader of the first finds the
-- beginning of the second payload.
pub send_alert_info_twice :
    (env : Environment) (first second : PdmEvent) (ps qs : Parameters) (m : Manager) (mem : List ℕ)
    → m.memory ≡ some mem
    → (env.event_monitor == 0) ≡ false
    → ltb shm_size (length (env.stringify first ps)) ≡ false
    → ltb shm_size (length (env.stringify second qs)) ≡ false
    → length (env.stringify first ps) ≤ length (env.stringify second qs)
    → let n = length (env.stringify first ps) in
      let m' = send_alert_info env second qs (send_alert_info env first ps m) in
      (m'.sent
        ≡ signal env.event_monitor (length (env.stringify second qs))
          ∷ signal env.event_monitor n
          ∷ m.sent)
      × (read_signal (signal env.event_monitor n) m'.memory ≡ take n (env.stringify second qs))
unfolding send_alert_info write_payload
send_alert_info_twice env first second ps qs m mem e p s t l =
    simp (e, p, s, t)
      (
        refl,
        take-memcpy_shorter _ (env.stringify second qs) (memcpy (env.stringify first ps) mem) l,
      )
