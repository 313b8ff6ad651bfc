-- ===== src/StorageHandler/State.antt =====
-- The members of StorageDeviceHandler, the lookups of inc/private/DeviceHandler.h in its list, and
-- the loops over that list.
pub mod Lookup
use com_webos_service_pdm.Prelude.{
  ℕ, ◌+◌, ◌-◌, ◌%◌, ◌^◌, String, Bool, true, false, List, [], ◌∷◌, Option, none, some, ℤ, pos,
  negsuc, ◌==ℤ◌, St, starts_with, if◌then◌else◌, suc,
}
use com_webos_service_pdm.Os.{Trace}
use com_webos_service_pdm.StorageDevice.State.{StorageDevice, Dev, OnDev}

-- `space_thread` is mSpaceInfoThreadStatus.
pub record StorageHandler : Type 0 where
  pub max_storage_devices : ℕ
  pub space_thread : Bool
  pub storage_list : List StorageDevice

pub record Handler : Type 0 where
  pub state : StorageHandler
  pub open state use *
  pub trace : Trace

abbrev pub OnHandler : Type 0 → Type 0
OnHandler A = St Handler A

abbrev pub io_handler {ℓ} : {A : Type ℓ} → St Trace A → St Handler A
io_handler m h = let (a, t) = m h.trace in (a, record h { trace = t })

-- An int that is stored in a size_t.
unfoldable pub to_size_t : ℤ → ℕ
to_size_t (pos n) = n % 2 ^ 64
to_size_t (negsuc n) = 2 ^ 64 - suc n % 2 ^ 64

-- readMaxUsbStorageDevices; `config` is the number that PdmConfig has, if it has one.
unfoldable pub read_max_usb_storage_devices : Option ℤ → ℤ
read_max_usb_storage_devices none = pos 0
read_max_usb_storage_devices (some n) = n

-- The constructor.
unfoldable pub new_handler : Option ℤ → StorageHandler
new_handler config = record {
  max_storage_devices = to_size_t (read_max_usb_storage_devices config);
  space_thread = false;
  storage_list = [];
}

-- The tests of getDeviceWithNum, getDeviceWithPath and getDeviceWithName. The last two take a
-- device whose own path or name is a prefix of the text that is asked for.
abbrev pub has_num : ℤ → StorageDevice → Bool
has_num n d = d.device_num ==ℤ n

abbrev pub has_path : String → StorageDevice → Bool
has_path path d = starts_with path d.device_path

abbrev pub has_name : String → StorageDevice → Bool
has_name name d = starts_with name d.device_name

-- The loop of the lookups: the first device that passes.
unfoldable pub get_device : (StorageDevice → Bool) → List StorageDevice → Option StorageDevice
get_device test [] = none
get_device test (d ∷ ds) = if test d then some d else get_device test ds

module _ {A : Type 0} where
  abbrev pub keep_device :
      StorageDevice → A × List StorageDevice × Trace → A × List StorageDevice × Trace
  keep_device d (a, ds, t) = (a, d ∷ ds, t)

  abbrev pub put_device : A × Dev → List StorageDevice → A × List StorageDevice × Trace
  put_device (a, d) ds = (a, d.device ∷ ds, d.trace)

  -- An action on the first device that passes, as through the pointer that a lookup returns.
  unfoldable pub at_device :
      A
      → (StorageDevice → Bool)
      → OnDev A
      → List StorageDevice
      → Trace
      → A × List StorageDevice × Trace
  at_device default test m [] t = (default, [], t)
  at_device default test m (d ∷ ds) t =
      let rest = keep_device d (at_device default test m ds t) in
      if test d then put_device (m (record { device = d; trace = t })) ds else rest

  unfoldable pub on_device : A → (StorageDevice → Bool) → OnDev A → OnHandler A
  unfolding at_device
  on_device default test m h =
      let (a, ds, t) = at_device default test m h.storage_list h.trace in
      (a, record h { state = record h.state { storage_list = ds }; trace = t })

  -- A loop over the devices that keeps a result.
  unfoldable pub sweep_devices :
      (A → OnDev A) → A → List StorageDevice → Trace → A × List StorageDevice × Trace
  sweep_devices body a [] t = (a, [], t)
  sweep_devices body a (d ∷ ds) t =
      let (a', s) = body a (record { device = d; trace = t }) in
      let (a'', ds', t') = sweep_devices body a' ds s.trace in (a'', s.device ∷ ds', t')

  unfoldable pub on_devices : (A → OnDev A) → A → OnHandler A
  unfolding sweep_devices
  on_devices body a h =
      let (a', ds, t) = sweep_devices body a h.storage_list h.trace in
      (a', record h { state = record h.state { storage_list = ds }; trace = t })
