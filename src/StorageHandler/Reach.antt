-- ===== src/StorageHandler/Reach.antt =====
-- The storage handler through any sequence of events, commands, power events and callbacks.
use com_webos_service_pdm.Prelude.{
  ◌≤◌, Bool, true, false, refl, ◌∙◌, List, [], ◌∷◌, Option, ℤ, length, arith, any, not, ◌&&◌,
  if_cases,
}
use com_webos_service_pdm.Os.{Os, Trace, EventType, Target}
use com_webos_service_pdm.DeviceClass.{Props}
use com_webos_service_pdm.StorageDevice.Power.{suspend_request, resume_request}
use com_webos_service_pdm.StorageHandler.State.{
  Handler, new_handler, to_size_t, read_max_usb_storage_devices,
}
use com_webos_service_pdm.StorageHandler.Events.{handler_event}
use com_webos_service_pdm.StorageHandler.Events.Bound.{Keeps, Keeps-refl, handler_event-Keeps}
use com_webos_service_pdm.StorageHandler.Requests.{CommandType, handler_command}
use com_webos_service_pdm.StorageHandler.Requests.Replies.{
  handler_command-Answers, on_devices-Keeps, any_trace,
}
use com_webos_service_pdm.StorageHandler.Power.{
  PluginEvent, request_suspend, prepare_resume, request_umountall, prepare_suspend, other_event,
  handle_plugin_event, suspend_all, resume_all, umount_all_drive, command_notification,
  device_mounted, compute_space_info, read_device, umount_device,
}

-- What the handler is asked to do.
pub data Request : Type 0 where
  event : Props → Request
  command : CommandType → Request
  power : PluginEvent → Request
  callback : EventType → Target → Request
  space_turn : Request

module _ (os : Os) where
  unfoldable pub serve : Request → Handler → Handler
  serve (event dev) h = (handler_event os dev h).1
  serve (command c) h = (handler_command os c h).1
  serve (power e) h = (handle_plugin_event os e h).1
  serve (callback e d) h = (command_notification e d h).1
  serve space_turn h = (compute_space_info os h).1

  -- The requests one after the other.
  unfoldable pub serve_all : List Request → Handler → Handler
  unfolding serve
  serve_all [] h = h
  serve_all (r ∷ rs) h = serve_all rs (serve r h)

  handle_plugin_event-Keeps :
      (e : PluginEvent) (h : Handler) → Keeps h (handle_plugin_event os e h).1
  unfolding handle_plugin_event suspend_all resume_all umount_all_drive
  handle_plugin_event-Keeps request_suspend h = on_devices-Keeps (λ _. suspend_request os) tt h
  handle_plugin_event-Keeps prepare_resume h =
      any_trace h _ _ (on_devices-Keeps (λ _. resume_request os) tt h)
  handle_plugin_event-Keeps request_umountall h = on_devices-Keeps (umount_device os false) true h
  handle_plugin_event-Keeps prepare_suspend h = on_devices-Keeps (umount_device os true) true h
  handle_plugin_event-Keeps other_event h = Keeps-refl h

  compute_space_info-Keeps : (h : Handler) → Keeps h (compute_space_info os h).1
  unfolding compute_space_info
  compute_space_info-Keeps h =
      if_cases (λ (r : Bool × Handler). Keeps h r.1) (not h.space_thread)
        (λ e. (refl, λ b. record { bounded = b.bounded }))
        (λ e.
          if_cases (λ (r : Bool × Handler). Keeps h r.1) (any device_mounted h.storage_list)
            (λ f. on_devices-Keeps (λ _. read_device os) tt h)
            (λ f. (refl, λ b. record { bounded = b.bounded })))

  command_notification-Keeps :
      (e : EventType) (d : Target) (h : Handler) → Keeps h (command_notification e d h).1
  unfolding command_notification
  command_notification-Keeps e d h =
      if_cases (Keeps h) (not h.space_thread && any device_mounted h.storage_list)
        (λ f. (refl, λ b. record { bounded = b.bounded }))
        (λ f. (refl, λ b. record { bounded = b.bounded }))

  serve-Keeps : (r : Request) (h : Handler) → Keeps h (serve r h)
  unfolding serve
  serve-Keeps (event dev) h = handler_event-Keeps os dev h
  serve-Keeps (command c) h = (handler_command-Answers os c h).keeps
  serve-Keeps (power e) h = handle_plugin_event-Keeps e h
  serve-Keeps (callback e d) h = command_notification-Keeps e d h
  serve-Keeps space_turn h = compute_space_info-Keeps h

  serve_all-Keeps : (rs : List Request) (h : Handler) → Keeps h (serve_all rs h)
  unfolding serve_all
  serve_all-Keeps [] h = Keeps-refl h
  serve_all-Keeps (r ∷ rs) h =
      let k = serve-Keeps r h in
      let l = serve_all-Keeps rs (serve r h) in (l.0 ∙ k.0, λ b. l.1 (k.1 b))

-- Whatever events, commands, power events, callbacks of the devices and turns of the thread that
-- reads the sizes reach a new handler, in any order and number, it never holds more devices than
-- the configured number, as a size_t; without that number it holds none.
pub serve_all-length :
    (os : Os) (config : Option ℤ) (t : Trace) (rs : List Request)
    → length (serve_all os rs (record { state = new_handler config; trace = t })).storage_list
      ≤ to_size_t (read_max_usb_storage_devices config)
unfolding new_handler
serve_all-length os config t rs =
    let h : Handler = record { state = new_handler config; trace = t } in
    let k = serve_all-Keeps os rs h in
    omega (arith, (k.1 (record { bounded = omega arith })).bounded, k.0)
