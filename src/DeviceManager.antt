-- ===== src/DeviceManager.antt =====
-- framework/DeviceManager.cpp and inc/private/DeviceHandler.h: the handlers, and the order in which
-- they are asked.
pub mod Order
use com_webos_service_pdm.Prelude.{
  ℤ, pos, ◌==ℤ◌, String, Bool, true, false, not, ◌&&◌, ◌||◌, List, [], ◌∷◌, Option, none, some, any,
  St, str_eq, if◌then◌else◌,
}
use com_webos_service_pdm.Utils.{to_int}
use com_webos_service_pdm.DeviceClass.{Props, get_id_black_list, get_dev_type}
use com_webos_service_pdm.StorageHandler.Requests.{CommandType, Reply}
use com_webos_service_pdm.StorageHandler.Power.{PluginEvent}

-- The operations of a DeviceHandler on the state `W` of the daemon, which holds the reply that is
-- being written.
pub record DeviceHandler (W : Type 0) : Type 0 where
  pub handler_event : Props → St W Bool
  pub handler_command : CommandType → St W Bool
  pub handle_plugin_event : PluginEvent → St W Bool

-- The base class takes every plugin event and does nothing.
abbrev pub default_plugin_event {ℓ} : {W : Type ℓ} → PluginEvent → St W Bool
default_plugin_event e w = (true, w)

-- createPdmdeviceList, from the handlers that are registered under their names, in the order of
-- these, and the names of the configuration; `none` where it has none.
abbrev chosen {ℓ} : {H : Type ℓ} → List String → List (String × H) → List H
chosen names [] = []
chosen names ((n, h) ∷ hs) = if any (str_eq n) names then h ∷ chosen names hs else chosen names hs

unfoldable pub create_pdm_device_list {ℓ} :
    {H : Type ℓ} → Option (List String) → List (String × H) → Option (List H)
create_pdm_device_list none registered = none
create_pdm_device_list (some names) registered = some (chosen names registered)

module _ {W : Type 0} where
  -- The loop of HandlePdmDevice.
  unfoldable pub ask_all : Props → List (DeviceHandler W) → St W Bool
  ask_all dev [] w = (false, w)
  ask_all dev (h ∷ hs) w =
      let (taken, w') = h.handler_event dev w in
      let rest = ask_all dev hs w' in
      if str_eq (get_dev_type dev) "usb_device" then rest else if taken then (true, w') else rest

  -- `blacklisted` is what BlackListDeviceHandler does.
  unfoldable pub handle_pdm_device : (Props → W → W) → List (DeviceHandler W) → Props → St W Bool
  unfolding ask_all
  handle_pdm_device blacklisted hs dev w =
      if not (to_int (get_id_black_list dev) ==ℤ pos 0)
      then (true, blacklisted dev w)
      else ask_all dev hs w

  unfoldable pub handle_pdm_command : List (DeviceHandler W) → CommandType → St W Bool
  handle_pdm_command [] c w = (false, w)
  handle_pdm_command (h ∷ hs) c w =
      let (taken, w') = h.handler_command c w in
      let rest = handle_pdm_command hs c w' in if taken then (true, w') else rest

  unfoldable pub handle_plugin_event : List (DeviceHandler W) → PluginEvent → St W Bool
  handle_plugin_event [] e w = (true, w)
  handle_plugin_event (h ∷ hs) e w =
      let (done, w') = h.handle_plugin_event e w in
      let (all_done, w'') = handle_plugin_event hs e w' in (done && all_done, w'')
