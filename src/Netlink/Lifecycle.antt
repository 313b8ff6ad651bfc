-- ===== src/Netlink/Lifecycle.antt =====
-- What the listener owns, from its starts to its ends: the udev context, the descriptor of the stop
-- and the thread.
use com_webos_service_pdm.Prelude.{
  ℕ, zero, suc, Bool, true, false, ◌≡◌, refl, sym, ◌∙◌, List, [], ◌∷◌, if_cases,
}
use com_webos_service_pdm.DeviceClass.Factory.{Subsystem}
use com_webos_service_pdm.Netlink
use com_webos_service_pdm.Netlink.{
  Call, udev_new, udev_unref, eventfd, write_stop, close_stop, start_thread, join_thread, Udevd,
  Listener, new_listener, Queue, init, start_listener, stop_thread, close_fd, unref, stop_listener,
}

-- What is held behind the calls.
pub udev_held : List Call → Bool
udev_held [] = false
udev_held (udev_new made ∷ t) = made
udev_held (udev_unref ∷ t) = false
udev_held (_ ∷ t) = udev_held t

pub fd_held : List Call → Bool
fd_held [] = false
fd_held (eventfd made ∷ t) = made
fd_held (close_stop ∷ t) = false
fd_held (_ ∷ t) = fd_held t

pub thread_runs : List Call → Bool
thread_runs [] = false
thread_runs (start_thread ∷ t) = true
thread_runs (join_thread ∷ t) = false
thread_runs (_ ∷ t) = thread_runs t

IsWoken : List Call → Type 0
IsWoken (write_stop ∷ t) = Unit
IsWoken _ = ⊥

-- The rule for each call: nothing is made over what is held, nothing is given back that is not
-- held, the thread runs only while both others are held, and it is joined behind a wake-up.
pub IsSafe : List Call → Type 0
IsSafe [] = Unit
IsSafe (udev_new made ∷ t) = (udev_held t ≡ false) × IsSafe t
IsSafe (udev_unref ∷ t) = (udev_held t ≡ true) × (thread_runs t ≡ false) × IsSafe t
IsSafe (eventfd made ∷ t) = (fd_held t ≡ false) × IsSafe t
IsSafe (write_stop ∷ t) = (fd_held t ≡ true) × IsSafe t
IsSafe (close_stop ∷ t) = (fd_held t ≡ true) × (thread_runs t ≡ false) × IsSafe t
IsSafe (start_thread ∷ t) =
    (thread_runs t ≡ false) × (udev_held t ≡ true) × (fd_held t ≡ true) × IsSafe t
IsSafe (join_thread ∷ t) = (thread_runs t ≡ true) × IsWoken t × IsSafe t

-- The members say what is held.
pub record IsSound (l : Listener) : Type 0 where
  pub udev : l.udev ≡ udev_held l.trace
  pub fd : l.stop_fd ≡ fd_held l.trace
  pub thread : l.thread ≡ thread_runs l.trace
  pub needed : l.thread ≡ true → l.stop_fd ≡ true
  pub safe : IsSafe l.trace

-- Nothing is held.
pub record IsReleased (l : Listener) : Type 0 where
  pub sound : IsSound l
  pub no_udev : l.udev ≡ false
  pub no_fd : l.stop_fd ≡ false
  pub no_thread : l.thread ≡ false

-- A part of the end: what is sound stays so, and the member is reset.
stop_thread-IsSound :
    (l : Listener) → IsSound l → IsSound (stop_thread l) × ((stop_thread l).thread ≡ false)
unfolding stop_thread udev_held fd_held thread_runs IsSafe IsWoken
stop_thread-IsSound l s =
    if_cases (λ (r : Listener). IsSound r × (r.thread ≡ false)) l.thread
      (λ e. rw (s.needed e) (
        record {
          udev = s.udev;
          fd = sym (s.needed e) ∙ s.fd;
          thread = refl;
          needed = λ h. absurd (cc h);
          safe = (sym s.thread ∙ e, tt, (sym s.fd ∙ s.needed e, s.safe));
        },
        refl,
      ))
      (λ e. (s, e))

close_fd-IsSound :
    (l : Listener)
    → l.thread ≡ false
    → IsSound l
    → IsSound (close_fd l) × ((close_fd l).thread ≡ false) × ((close_fd l).stop_fd ≡ false)
unfolding close_fd udev_held fd_held thread_runs IsSafe
close_fd-IsSound l n s =
    if_cases (λ (r : Listener). IsSound r × (r.thread ≡ false) × (r.stop_fd ≡ false)) l.stop_fd
      (λ e. (
        record {
          udev = s.udev;
          fd = refl;
          thread = s.thread;
          needed = λ h. absurd (cc (h, n));
          safe = (sym s.fd ∙ e, sym s.thread ∙ n, s.safe);
        },
        n,
        refl,
      ))
      (λ e. (s, n, e))

unref-IsReleased :
    (l : Listener) → l.thread ≡ false → l.stop_fd ≡ false → IsSound l → IsReleased (unref l)
unfolding unref udev_held fd_held thread_runs IsSafe
unref-IsReleased l n f s =
    if_cases IsReleased l.udev
      (λ e. record {
        sound = record {
          udev = refl;
          fd = s.fd;
          thread = s.thread;
          needed = s.needed;
          safe = (sym s.udev ∙ e, sym s.thread ∙ n, s.safe);
        };
        no_udev = refl;
        no_fd = f;
        no_thread = n;
      })
      (λ e. record { sound = s; no_udev = e; no_fd = f; no_thread = n })

stop_listener-IsReleased : (l : Listener) → IsSound l → IsReleased (stop_listener l).1
unfolding stop_listener
stop_listener-IsReleased l s =
    let a = stop_thread-IsSound l s in
    let b = close_fd-IsSound (stop_thread l) a.1 a.0 in
    unref-IsReleased (close_fd (stop_thread l)) b.1 b.2 b.0

-- What init leaves: both are held where it succeeds, and the thread is not started.
record IsInit (r : Bool × Listener) : Type 0 where
  sound : IsSound r.1
  udev : r.0 ≡ true → r.1.udev ≡ true
  fd : r.0 ≡ true → r.1.stop_fd ≡ true
  thread : r.1.thread ≡ false

module _ (subs : List Subsystem) (os : Udevd) where
  opened-IsInit :
      (l : Listener)
      → IsSound l
      → l.udev ≡ true
      → l.stop_fd ≡ false
      → l.thread ≡ false
      → IsInit (Netlink.opened subs os l)
  unfolding Netlink.opened udev_held fd_held thread_runs IsSafe
  opened-IsInit l s u f n =
      if_cases IsInit (os.make_eventfd l.trace)
        (λ e. record {
          sound = record {
            udev = s.udev;
            fd = refl;
            thread = s.thread;
            needed = λ h. absurd (cc (h, n));
            safe = (sym s.fd ∙ f, s.safe);
          };
          udev = λ _. u;
          fd = λ _. e;
          thread = n;
        })
        (λ e. record {
          sound = record {
            udev = refl;
            fd = refl;
            thread = s.thread;
            needed = λ h. absurd (cc (h, n));
            safe = (sym s.udev ∙ u, sym s.thread ∙ n, (sym s.fd ∙ f, s.safe));
          };
          udev = λ h. absurd (cc h);
          fd = λ h. absurd (cc h);
          thread = n;
        })

  init-IsInit : (l : Listener) → IsReleased l → IsInit (init subs os l)
  unfolding init udev_held fd_held thread_runs IsSafe
  init-IsInit l r =
      let tried : IsSound (record l {
        udev = os.make_udev l.trace;
        trace = udev_new (os.make_udev l.trace) ∷ l.trace;
      }) =
        record {
          udev = refl;
          fd = r.sound.fd;
          thread = r.sound.thread;
          needed = r.sound.needed;
          safe = (sym r.sound.udev ∙ r.no_udev, r.sound.safe);
        } in
      if_cases IsInit (os.make_udev l.trace) (λ e. opened-IsInit _ tried e r.no_fd r.no_thread)
        (λ e. record {
          sound = tried;
          udev = λ h. absurd (cc h);
          fd = λ h. absurd (cc h);
          thread = r.no_thread;
        })

  start_listener-IsSound : (l : Listener) → IsReleased l → IsSound (start_listener subs os l).1
  unfolding start_listener udev_held fd_held thread_runs IsSafe
  start_listener-IsSound l r =
      let i = init-IsInit l r in
      if_cases (λ (x : Bool × Listener). IsSound x.1) (init subs os l).0
        (λ e. record {
          udev = i.sound.udev;
          fd = i.sound.fd;
          thread = refl;
          needed = λ _. i.fd e;
          safe = (
            sym i.sound.thread ∙ i.thread,
            sym i.sound.udev ∙ i.udev e,
            sym i.sound.fd ∙ i.fd e,
            i.sound.safe,
          );
        })
        (λ e. i.sound)

-- An end of a listener that holds nothing makes no call and changes nothing.
stop_listener-id : (l : Listener) → IsReleased l → (stop_listener l).1 ≡ l
unfolding stop_listener stop_thread close_fd unref
stop_listener-id l r = rw (r.no_thread, r.no_fd, r.no_udev) refl

pub stop_again : ℕ → Listener → Listener
stop_again zero l = l
stop_again (suc n) l = stop_again n (stop_listener l).1

stop_again-id : (n : ℕ) (l : Listener) → IsReleased l → stop_again n l ≡ l
unfolding stop_again
stop_again-id zero l r = refl
stop_again-id (suc n) l r = rw (stop_listener-id l r) (stop_again-id n l r)

-- Starts, and behind each an end and so many further ends: the manager and the destructor both
-- end the listener.
pub run_rounds : List Subsystem → Udevd → List ℕ → Listener → Listener
run_rounds subs os [] l = l
run_rounds subs os (n ∷ ns) l =
    run_rounds subs os ns (stop_again n (stop_listener (start_listener subs os l).1).1)

run_rounds-IsReleased :
    (subs : List Subsystem) (os : Udevd) (ns : List ℕ) (l : Listener)
    → IsReleased l
    → IsReleased (run_rounds subs os ns l)
unfolding run_rounds
run_rounds-IsReleased subs os [] l r = r
run_rounds-IsReleased subs os (n ∷ ns) l r =
    let done =
      stop_listener-IsReleased (start_listener subs os l).1 (start_listener-IsSound subs os l r) in
    run_rounds-IsReleased subs os ns _
      (rw (stop_again-id n (stop_listener (start_listener subs os l).1).1 done) done)

-- Where a new listener is started and ended any number of times, each start followed by one end
-- or more, then, whatever udev and the kernel answer, nothing is held at the end, nothing was made
-- twice or given back twice, and the thread was running only while the udev context and the
-- descriptor of the stop were held, and was woken before it was joined.
pub listener_rounds-IsReleased :
    (subs : List Subsystem) (os : Udevd) (ns : List ℕ) (q : Queue)
    → IsReleased (run_rounds subs os ns (new_listener q))
unfolding new_listener udev_held fd_held thread_runs IsSafe
listener_rounds-IsReleased subs os ns q =
    run_rounds-IsReleased subs os ns (new_listener q) (record {
      sound = record {
        udev = refl;
        fd = refl;
        thread = refl;
        needed = λ h. absurd (cc h);
        safe = tt;
      };
      no_udev = refl;
      no_fd = refl;
      no_thread = refl;
    })
