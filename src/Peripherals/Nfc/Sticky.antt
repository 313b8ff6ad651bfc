-- ===== src/Peripherals/Nfc/Sticky.antt =====
-- The flag of the NFC handler, and what it does to the handlers that are asked behind it.
use com_webos_service_pdm.Prelude.{
  Bool, true, false, ◌≡◌, refl, List, [], ◌∷◌, Option, none, some, str_eq, if_cases,
}
use com_webos_service_pdm.Os.{Os}
use com_webos_service_pdm.DeviceClass.{
  Props, get_action, get_dev_type, get_interface_class, contains, find_device_action, DeviceActions,
  dev_add, dev_remove, dev_change, dev_bind, dev_unknown,
}
use com_webos_service_pdm.Devices.{Device, Handler}
use com_webos_service_pdm.Peripherals.{Flagged, flag_removed}
use com_webos_service_pdm.Peripherals.Nfc
use com_webos_service_pdm.Peripherals.Nfc.{process_nfc_device, handler_event}
use com_webos_service_pdm.DeviceManager.{DeviceHandler, ask_all}

module _ (os : Os) where
  abbrev HasFlag : Flagged Device → Type 0
  HasFlag f = f.device_removed ≡ true

  flag_removed-HasFlag :
      (f : Flagged Device) (o : Option (Handler Device)) → HasFlag f → HasFlag (flag_removed f o)
  flag_removed-HasFlag f none h = h
  flag_removed-HasFlag f (some g) h = refl

  process-HasFlag :
      (dev : Props) (f : Flagged Device) → HasFlag f → HasFlag (process_nfc_device os dev f)
  unfolding process_nfc_device
  process-HasFlag dev f h = go (find_device_action (get_action dev))
    where
      go : (a : Option DeviceActions) → HasFlag (Nfc.process_action os a dev f)
      go none = h
      go (some dev_add) = h
      go (some dev_remove) = flag_removed-HasFlag f _ h
      go (some dev_change) = h
      go (some dev_bind) = h
      go (some dev_unknown) = h

  class-HasFlag :
      (dev : Props) (f : Flagged Device) → HasFlag f → HasFlag (Nfc.process_class os dev f).1
  unfolding Nfc.process_class
  class-HasFlag dev f h =
      if_cases (λ (r : Bool × Flagged Device). HasFlag r.1)
        (contains ":0b" (get_interface_class dev)) (λ _. process-HasFlag dev f h) (λ _. h)

  pub event-HasFlag :
      (dev : Props) (f : Flagged Device) → HasFlag f → HasFlag (handler_event os dev f).1
  unfolding handler_event
  event-HasFlag dev f h =
      let P = λ (r : Bool × Flagged Device). HasFlag r.1 in
      let h' = process-HasFlag dev f h in
      if_cases P (str_eq (get_action dev) "remove")
        (λ _.
          if_cases P (process_nfc_device os dev f).device_removed (λ _. h')
            (λ _. class-HasFlag dev _ h'))
        (λ _. class-HasFlag dev f h)

  pub event-taken :
      (dev : Props) (f : Flagged Device)
      → HasFlag f
      → get_action dev ≡ "remove"
      → (handler_event os dev f).0 ≡ true
  unfolding handler_event
  event-taken dev f h e = rw (e, process-HasFlag dev f h) refl

  -- The events one after the other.
  pub events : List Props → Flagged Device → Flagged Device
  events [] f = f
  events (dev ∷ devs) f = events devs (handler_event os dev f).1

  events-HasFlag : (devs : List Props) (f : Flagged Device) → HasFlag f → HasFlag (events devs f)
  unfolding events
  events-HasFlag [] f h = h
  events-HasFlag (dev ∷ devs) f h = events-HasFlag devs _ (event-HasFlag dev f h)

  -- The NFC handler beside the rest of the daemon's state.
  pub nfc_handler : {V : Type 0} → DeviceHandler (Flagged Device × V)
  nfc_handler = record {
    handler_event = λ dev (f, v). let (taken, f') = handler_event os dev f in (taken, (f', v));
    handler_command = λ c w. (false, w);
    handle_plugin_event = λ e w. (true, w);
  }

-- Once an NFC reader was removed, and whatever events follow, the NFC handler takes every "remove"
-- event of another type than usb_device, so the loop over the handlers ends there and no handler
-- behind it sees the event.
pub nfc_removed-shadows :
    {V : Type 0} (os : Os) (hs : List (DeviceHandler (Flagged Device × V))) (devs : List Props)
    (dev : Props) (f : Flagged Device) (v : V)
    → f.device_removed ≡ true
    → get_action dev ≡ "remove"
    → str_eq (get_dev_type dev) "usb_device" ≡ false
    → let g = events os devs f in
      ask_all dev (nfc_handler os ∷ hs) (g, v) ≡ (true, ((handler_event os dev g).1, v))
unfolding ask_all nfc_handler
nfc_removed-shadows os hs devs dev f v h e t =
    rw (t, event-taken os dev (events os devs f) (events-HasFlag os devs f h) e) refl
