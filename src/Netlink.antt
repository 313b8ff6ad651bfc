-- ===== src/Netlink.antt =====
-- framework/PdmNetlinkListener.cpp and PdmNetlinkClassAdapter.cpp: the thread that waits for udev
-- events, its start and its end, and the way of an event to the queue of commands.
pub mod Events
pub mod Lifecycle
use com_webos_service_pdm.Prelude.{
  String, Bool, true, false, List, [], ◌∷◌, Option, none, some, St, if◌then◌else◌,
}
use com_webos_service_pdm.DeviceClass.{Props}
use com_webos_service_pdm.DeviceClass.Factory.{Subsystem, parse_dev_props, create}
use com_webos_service_pdm.CommandQueue.{Pool, send_command}

-- A udev device, as its list of properties.
abbrev pub Udev : Type 0
Udev = List (String × String)

-- A command: the device class that is made of an event, by name, with its properties.
abbrev pub Command : Type 0
Command = String × Props

-- The command manager of the adapter, where it is set.
abbrev pub Queue : Type 0
Queue = Option (Pool Command)

-- The calls on what the listener owns, each with its success.
pub data Call : Type 0 where
  udev_new : Bool → Call
  udev_unref : Call
  eventfd : Bool → Call
  write_stop : Call
  close_stop : Call
  start_thread : Call
  join_thread : Call

-- What udev and the kernel answer behind the calls so far. `present` lists the devices that are
-- enumerated, and is `none` where the enumeration cannot be made.
pub record Udevd : Type 0 where
  pub make_udev : List Call → Bool
  pub make_eventfd : List Call → Bool
  pub present : List Call → Option (List (Option Udev))

-- The members, with the calls, newest first, and the queue behind the adapter. `stop_fd` says
-- whether m_stopFd is not negative, and `thread` whether the thread can be joined.
pub record Listener : Type 0 where
  pub thread : Bool
  pub udev : Bool
  pub stop_fd : Bool
  pub trace : List Call
  pub queue : Queue

unfoldable pub new_listener : Queue → Listener
new_listener q = record { thread = false; udev = false; stop_fd = false; trace = []; queue = q }

-- What an epoll event says: not input, the event of the stop, or that of the monitor with what is
-- received from it.
pub data Ready : Type 0 where
  no_input : Ready
  stop_ready : Ready
  udev_ready : Option Udev → Ready

-- What epoll_wait returns.
pub data Wait : Type 0 where
  interrupted : Wait
  wait_failed : Wait
  ready : List Ready → Wait

module _ (subs : List Subsystem) where
  send_class : Option String → Props → Queue → Queue
  send_class (some name) p (some pool) = some (send_command (some (name, p)) pool).1
  send_class _ p q = q

  unfoldable pub handle_event : Udev → Bool → Queue → Queue
  unfolding send_class
  handle_event dev power q = let p = parse_dev_props dev power in send_class (create subs p) p q

  -- The loop over the list entries; a path that is gone gives no device.
  enumerate : List (Option Udev) → Queue → Queue
  enumerate [] q = q
  enumerate (none ∷ ds) q = enumerate ds q
  enumerate (some d ∷ ds) q = enumerate ds (handle_event d true q)

  pub enumerate_devices : Option (List (Option Udev)) → Queue → Queue
  unfolding enumerate
  enumerate_devices none q = q
  enumerate_devices (some ds) q = enumerate ds q

  -- The loop over the events of one wait: whether it goes to `out`.
  pub handle_ready : List Ready → St Queue Bool
  handle_ready [] q = (false, q)
  handle_ready (no_input ∷ rs) q = handle_ready rs q
  handle_ready (stop_ready ∷ rs) q = (true, q)
  handle_ready (udev_ready none ∷ rs) q = handle_ready rs q
  handle_ready (udev_ready (some d) ∷ rs) q = handle_ready rs (handle_event d false q)

  -- The loop of threadStart, for the waits that have ended so far: whether the thread has ended.
  pub listen : List Wait → St Queue Bool
  unfolding handle_ready
  listen [] q = (false, q)
  listen (interrupted ∷ ws) q = listen ws q
  listen (wait_failed ∷ ws) q = (true, q)
  listen (ready rs ∷ ws) q =
      let (out, q') = handle_ready rs q in
      let rest = listen ws q' in if out then (true, q') else rest

  -- threadStart; `monitored` says whether the monitor and its descriptors could be set up.
  unfoldable pub thread_start : Bool → List Wait → St Queue Bool
  unfolding listen
  thread_start monitored ws q = if monitored then listen ws q else (true, q)

  module _ (os : Udevd) where
    opened : Listener → Bool × Listener
    opened l =
        let fd = os.make_eventfd l.trace in
        let tried : Listener = record l { stop_fd = fd; trace = eventfd fd ∷ l.trace } in
        if fd
        then (true, record tried { queue = enumerate_devices (os.present tried.trace) tried.queue })
        else (false, record tried { udev = false; trace = udev_unref ∷ tried.trace })

    unfoldable pub init : Listener → Bool × Listener
    unfolding opened enumerate_devices
    init l =
        let made = os.make_udev l.trace in
        let tried : Listener = record l { udev = made; trace = udev_new made ∷ l.trace } in
        if made then opened tried else (false, tried)

    -- runListner, where init succeeds.
    unfoldable pub start_listener : Listener → Bool × Listener
    unfolding init
    start_listener l =
        let (ok, l') = init l in
        if ok
        then (true, record l' { thread = true; trace = start_thread ∷ l'.trace })
        else (false, l')

-- The three parts of stopListener, which the destructor calls too. A join succeeds.
pub stop_thread : Listener → Listener
stop_thread l =
    let woken = if l.stop_fd then write_stop ∷ l.trace else l.trace in
    if l.thread then record l { thread = false; trace = join_thread ∷ woken } else l

pub close_fd : Listener → Listener
close_fd l = if l.stop_fd then record l { stop_fd = false; trace = close_stop ∷ l.trace } else l

pub unref : Listener → Listener
unref l = if l.udev then record l { udev = false; trace = udev_unref ∷ l.trace } else l

unfoldable pub stop_listener : Listener → Bool × Listener
unfolding stop_thread close_fd unref
stop_listener l = (true, unref (close_fd (stop_thread l)))
