-- ===== src/DeviceManager/Order.antt =====
-- Which handler answers a command or an event.
use com_webos_service_pdm.Prelude.{
  pos, ◌==ℤ◌, true, false, ◌≡◌, refl, List, [], ◌∷◌, ◌++◌, All, str_eq,
}
use com_webos_service_pdm.Utils.{to_int}
use com_webos_service_pdm.DeviceClass.{Props, get_id_black_list, get_dev_type}
use com_webos_service_pdm.StorageHandler.Requests.{CommandType}
use com_webos_service_pdm.DeviceManager.{
  DeviceHandler, handle_pdm_command, handle_pdm_device, ask_all,
}

module _ {W : Type 0} where
  -- A handler that refuses a command without changing the state.
  abbrev pub Refuses : CommandType → W → DeviceHandler W → Type 0
  Refuses c w h = h.handler_command c w ≡ (false, w)

  abbrev pub Ignores : Props → W → DeviceHandler W → Type 0
  Ignores dev w h = h.handler_event dev w ≡ (false, w)

  -- Where the handlers before `h` refuse a command and leave the state, and `h` takes it, the
  -- outcome is that of `h`, whatever handlers stand behind it.
  pub handle_pdm_command-append :
      (before after : List (DeviceHandler W)) (h : DeviceHandler W) (c : CommandType) (w : W)
      → All (Refuses c w) before
      → (h.handler_command c w).0 ≡ true
      → handle_pdm_command (before ++ h ∷ after) c w ≡ h.handler_command c w
  unfolding handle_pdm_command
  handle_pdm_command-append [] after h c w r t = rw t refl
  handle_pdm_command-append (g ∷ gs) after h c w r t =
      rw r.0 (handle_pdm_command-append gs after h c w r.1 t)

  -- An event that is not one of a whole USB device and is not blacklisted goes to the first handler
  -- that takes it, past handlers that refuse it and leave the state, and to none behind it.
  handle_pdm_device-append :
      (blacklisted : Props → W → W) (before after : List (DeviceHandler W)) (h : DeviceHandler W)
      (dev : Props) (w : W)
      → (to_int (get_id_black_list dev) ==ℤ pos 0) ≡ true
      → str_eq (get_dev_type dev) "usb_device" ≡ false
      → All (Ignores dev w) before
      → (h.handler_event dev w).0 ≡ true
      → handle_pdm_device blacklisted (before ++ h ∷ after) dev w ≡ h.handler_event dev w
  unfolding handle_pdm_device
  handle_pdm_device-append blacklisted before after h dev w b u i t = rw b (asked before i)
    where
      asked :
          (before : List (DeviceHandler W))
          → All (Ignores dev w) before
          → ask_all dev (before ++ h ∷ after) w ≡ h.handler_event dev w
      asked [] i = rw (ask_all, u, t) refl
      asked (g ∷ gs) i = rw (ask_all, i.0, u) (asked gs i.1)

  -- The handlers in turn, each on the state that the one before it leaves.
  pub fold_events : Props → List (DeviceHandler W) → W → W
  fold_events dev [] w = w
  fold_events dev (h ∷ hs) w = fold_events dev hs (h.handler_event dev w).1

  -- An event of a whole USB device that is not blacklisted reaches every handler in turn, and is
  -- never reported as taken.
  handle_pdm_device-usb :
      (blacklisted : Props → W → W) (hs : List (DeviceHandler W)) (dev : Props) (w : W)
      → (to_int (get_id_black_list dev) ==ℤ pos 0) ≡ true
      → str_eq (get_dev_type dev) "usb_device" ≡ true
      → handle_pdm_device blacklisted hs dev w ≡ (false, fold_events dev hs w)
  unfolding handle_pdm_device fold_events ask_all
  handle_pdm_device-usb blacklisted hs dev w b u = rw b (asked hs w)
    where
      asked :
          (hs : List (DeviceHandler W)) (w : W) → ask_all dev hs w ≡ (false, fold_events dev hs w)
      asked [] w = refl
      asked (h ∷ hs) w = rw (u) (asked hs (h.handler_event dev w).1)
