-- ===== src/Netlink/Events.antt =====
-- The events that the listener's thread hands over to the queue of commands.
use mathlib.Core.List.{append-nil, append_assoc}
use com_webos_service_pdm.Prelude.{
  String, Bool, true, false, ◌≡◌, refl, ◌∙◌, List, [], ◌∷◌, ◌++◌, Option, none, some, if◌then◌else◌,
  Option-cases, inl, inr,
}
use com_webos_service_pdm.DeviceClass.{Props}
use com_webos_service_pdm.DeviceClass.Factory.{Subsystem, parse_dev_props, create}
use com_webos_service_pdm.CommandQueue.{Pool, send_command, enqueue}
use com_webos_service_pdm.Netlink
use com_webos_service_pdm.Netlink.{
  Udev, Command, Queue, Ready, no_input, stop_ready, udev_ready, Wait, interrupted, wait_failed,
  ready, handle_event, handle_ready, listen,
}

-- All that the waits bring, one event after the other; a failed wait ends the thread as a stop does.
pub events : List Wait → List Ready
events [] = []
events (interrupted ∷ ws) = events ws
events (wait_failed ∷ ws) = stop_ready ∷ events ws
events (ready rs ∷ ws) = rs ++ events ws

-- The devices that are received in front of the first stop.
pub received : List Ready → List Udev
received [] = []
received (stop_ready ∷ rs) = []
received (udev_ready (some d) ∷ rs) = d ∷ received rs
received (udev_ready none ∷ rs) = received rs
received (no_input ∷ rs) = received rs

-- Whether there is a stop.
pub has_stop : List Ready → Bool
has_stop [] = false
has_stop (stop_ready ∷ rs) = true
has_stop (udev_ready d ∷ rs) = has_stop rs
has_stop (no_input ∷ rs) = has_stop rs

-- The command of a device, where it is given a class.
command_of : Option String → Props → List Command
command_of none p = []
command_of (some name) p = (name, p) ∷ []

-- The commands of the devices, in order.
pub commands_of : List Subsystem → List Udev → List Command
unfolding command_of
commands_of subs [] = []
commands_of subs (d ∷ ds) =
    command_of (create subs (parse_dev_props d false)) (parse_dev_props d false)
    ++ commands_of subs ds

-- The pool with these tasks behind the others.
pub added : Pool Command → List Command → Pool Command
added p cs = record p { tasks = p.tasks ++ cs; accepted = p.accepted ++ cs }

module _ (subs : List Subsystem) where
  handle_ready-append :
      (rs ss : List Ready) (q : Queue)
      → handle_ready subs (rs ++ ss) q ≡ (
          if (handle_ready subs rs q).0
          then (true, (handle_ready subs rs q).1)
          else handle_ready subs ss (handle_ready subs rs q).1)
  unfolding handle_ready
  handle_ready-append [] ss q = refl
  handle_ready-append (no_input ∷ rs) ss q = handle_ready-append rs ss q
  handle_ready-append (stop_ready ∷ rs) ss q = refl
  handle_ready-append (udev_ready none ∷ rs) ss q = handle_ready-append rs ss q
  handle_ready-append (udev_ready (some d) ∷ rs) ss q =
      handle_ready-append rs ss (handle_event subs d false q)

  -- The thread handles the events as they come, wherever the waits part them.
  listen-handle_ready :
      (ws : List Wait) (q : Queue) → listen subs ws q ≡ handle_ready subs (events ws) q
  unfolding listen handle_ready events
  listen-handle_ready [] q = refl
  listen-handle_ready (interrupted ∷ ws) q = listen-handle_ready ws q
  listen-handle_ready (wait_failed ∷ ws) q = refl
  listen-handle_ready (ready rs ∷ ws) q =
      rw (handle_ready-append rs (events ws) q, listen-handle_ready ws (handle_ready subs rs q).1)
        refl

  handle_event_lem :
      (d : Udev) (p : Pool Command)
      → p.terminate ≡ false
      → handle_event subs d false (some p)
        ≡ some
            (added p (command_of (create subs (parse_dev_props d false)) (parse_dev_props d false)))
  unfolding handle_event Netlink.send_class send_command enqueue added command_of
  handle_event_lem d p o = elim (Option-cases (create subs (parse_dev_props d false))) [
    | inl e ↦ rw (e, append-nil p.tasks, append-nil p.accepted) refl
    | inr (name, e) ↦ rw (e, o) refl
  ]

  handle_ready_lem :
      (rs : List Ready) (p : Pool Command)
      → p.terminate ≡ false
      → handle_ready subs rs (some p)
        ≡ (has_stop rs, some (added p (commands_of subs (received rs))))
  unfolding handle_ready has_stop received commands_of added
  handle_ready_lem [] p o = rw (append-nil p.tasks, append-nil p.accepted) refl
  handle_ready_lem (no_input ∷ rs) p o = handle_ready_lem rs p o
  handle_ready_lem (stop_ready ∷ rs) p o = rw (append-nil p.tasks, append-nil p.accepted) refl
  handle_ready_lem (udev_ready none ∷ rs) p o = handle_ready_lem rs p o
  handle_ready_lem (udev_ready (some d) ∷ rs) p o =
      let cs = command_of (create subs (parse_dev_props d false)) (parse_dev_props d false) in
      rw
        (
          handle_event_lem d p o,
          handle_ready_lem rs (added p cs) o,
          append_assoc p.tasks cs (commands_of subs (received rs)),
          append_assoc p.accepted cs (commands_of subs (received rs)),
        )
        refl

-- Where the queue is open, and no worker takes a command meanwhile, the thread ends where a stop or
-- a failed wait is among what the waits bring, and the queue is given the commands of the devices
-- received in front of it that are given a class, each once and in order, and nothing else.
pub listen-IsHandedOver :
    (subs : List Subsystem) (ws : List Wait) (p : Pool Command)
    → p.terminate ≡ false
    → listen subs ws (some p)
      ≡ (has_stop (events ws), some (added p (commands_of subs (received (events ws)))))
listen-IsHandedOver subs ws p o =
    listen-handle_ready subs ws (some p) ∙ handle_ready_lem subs (events ws) p o
