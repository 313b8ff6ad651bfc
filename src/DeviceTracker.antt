-- ===== src/DeviceTracker.antt =====
-- framework/DeviceTracker.cpp: what the observer of the handlers tells its subscribers, in a build
-- without WEBOS_SESSION.
use com_webos_service_pdm.Prelude.{Bool, true, false, List, [], ◌∷◌, ◌++◌, Option, none, some}
use com_webos_service_pdm.Os.{
  EventType, add, remove, mount, umount, mountall, unmountall, format_started, format_success,
  DeviceEventType, storage_device, mtp_device, ptp_device, all_device, non_storage_device,
  video_device, sound_device,
}

-- The switch of update: the kind of device that a change is told for, if it is told.
unfoldable pub event_type : DeviceEventType → EventType → Option DeviceEventType
event_type k e = elim (is_told e) [ true ↦ some (kind k) | false ↦ none ]
  where
    is_told : EventType → Bool
    is_told add = true
    is_told remove = true
    is_told mount = true
    is_told umount = true
    is_told mountall = true
    is_told unmountall = true
    is_told format_started = true
    is_told format_success = true
    is_told _ = false

    kind : DeviceEventType → DeviceEventType
    kind storage_device = storage_device
    kind mtp_device = storage_device
    kind ptp_device = storage_device
    kind all_device = all_device
    kind _ = non_storage_device

-- What update tells: the plugins, and the Luna subscribers of a kind of device.
pub data Told : Type 0 where
  plugins : EventType → Told
  luna : DeviceEventType → EventType → Told

abbrev told_kind : EventType → Option DeviceEventType → List Told
told_kind e none = []
told_kind e (some k) = luna k e ∷ []

abbrev told_own : DeviceEventType → EventType → List Told
told_own video_device e = luna video_device e ∷ []
told_own sound_device e = luna sound_device e ∷ []
told_own _ e = []

-- DeviceTracker::update, in the order of its calls.
unfoldable pub update : DeviceEventType → EventType → List Told
unfolding event_type
update k e = plugins e ∷ told_own k e ++ told_kind e (event_type k e)
