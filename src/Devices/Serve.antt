-- ===== src/Devices/Serve.antt =====
-- A handler of devices through any sequence of events, commands and power events.
use com_webos_service_pdm.Prelude.{Bool, List, [], ◌∷◌, Option, St}
use com_webos_service_pdm.DeviceClass.{Props}
use com_webos_service_pdm.StorageHandler.Requests.{CommandType, Reply}
use com_webos_service_pdm.StorageHandler.Power.{PluginEvent}

-- The operations of a handler; a command gives the reply that is written, if one is.
pub record Operations (H : Type 0) : Type 0 where
  pub handler_event : Props → St H Bool
  pub handler_command : CommandType → St H (Bool × Option Reply)
  pub handle_plugin_event : PluginEvent → St H Bool

pub data Request : Type 0 where
  event : Props → Request
  command : CommandType → Request
  power : PluginEvent → Request

module _ {H : Type 0} (ops : Operations H) where
  unfoldable pub serve : Request → H → H
  serve (event dev) h = (ops.handler_event dev h).1
  serve (command c) h = (ops.handler_command c h).1
  serve (power e) h = (ops.handle_plugin_event e h).1

  unfoldable pub serve_all : List Request → H → H
  unfolding serve
  serve_all [] h = h
  serve_all (r ∷ rs) h = serve_all rs (serve r h)

  -- What each operation keeps, all requests keep.
  pub serve_all_keeps :
      (P : H → Type 0)
      → ((dev : Props) (h : H) → P h → P (ops.handler_event dev h).1)
      → ((c : CommandType) (h : H) → P h → P (ops.handler_command c h).1)
      → ((e : PluginEvent) (h : H) → P h → P (ops.handle_plugin_event e h).1)
      → (rs : List Request) (h : H) → P h
      → P (serve_all rs h)
  unfolding serve_all serve
  serve_all_keeps P k l m [] h p = p
  serve_all_keeps P k l m (event dev ∷ rs) h p = serve_all_keeps P k l m rs _ (k dev h p)
  serve_all_keeps P k l m (command c ∷ rs) h p = serve_all_keeps P k l m rs _ (l c h p)
  serve_all_keeps P k l m (power e ∷ rs) h p = serve_all_keeps P k l m rs _ (m e h p)
