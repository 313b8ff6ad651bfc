-- ===== src/Examples/Netlink.antt =====
-- The theorems on the netlink listener at concrete inputs.
use com_webos_service_pdm.Prelude.{Bool, true, false, ◌≡◌, refl, List, [], ◌∷◌, some}
use com_webos_service_pdm.DeviceClass.Factory.{Subsystem}
use com_webos_service_pdm.CommandQueue.{Pool, new_pool}
use com_webos_service_pdm.Netlink.{
  Udev, Command, Call, close_stop, Udevd, new_listener, no_input, stop_ready, udev_ready, Wait,
  interrupted, ready, listen,
}
use com_webos_service_pdm.Netlink.Lifecycle.{IsReleased, run_rounds, listener_rounds-IsReleased}
use com_webos_service_pdm.Netlink.Events.{
  events, received, has_stop, commands_of, added, listen-IsHandedOver,
}

abbrev stick_event : Udev
stick_event = ("ACTION", "add") ∷ ("DEVNAME", "/dev/sda") ∷ []

abbrev default_only : List Subsystem
default_only = ("default", λ p. true) ∷ []

abbrev one_only : List Call → Bool
one_only [] = true
one_only (close_stop ∷ t) = false
one_only (_ ∷ t) = one_only t

-- udev and the kernel give all that is asked for, but the second descriptor.
abbrev second_refused : Udevd
second_refused = record {
  make_udev = λ t. true;
  make_eventfd = one_only;
  present = λ t. some (some stick_event ∷ []);
}

-- The listener is started twice; the first start is followed by three ends.
listener_rounds-IsReleased_example :
    IsReleased
      (run_rounds default_only second_refused (2 ∷ 0 ∷ []) (new_listener (some (new_pool 1))))
listener_rounds-IsReleased_example =
    listener_rounds-IsReleased default_only second_refused (2 ∷ 0 ∷ []) (some (new_pool 1))

abbrev open_pool : Pool Command
open_pool = new_pool 1

-- One device in front of the stop, and one behind it.
abbrev waits : List Wait
waits =
    interrupted
    ∷ ready (no_input ∷ udev_ready (some stick_event) ∷ [])
    ∷ ready (stop_ready ∷ udev_ready (some stick_event) ∷ [])
    ∷ []

listen-IsHandedOver_example : listen default_only waits (some open_pool) ≡ (
  has_stop (events waits),
  some (added open_pool (commands_of default_only (received (events waits)))),
)
unfolding new_pool
listen-IsHandedOver_example = listen-IsHandedOver default_only waits open_pool refl
