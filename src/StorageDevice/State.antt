-- ===== src/StorageDevice/State.antt =====
-- The members of StorageDevice (inc/private/StorageDevice.h) and of its bases Storage and Device
-- that the storage code reads or writes, with the trace of calls beside them.
use com_webos_service_pdm.Prelude.{
  ℕ, String, Bool, false, List, [], ◌∷◌, Option, none, some, ℤ, pos, St, str_eq, if◌then◌else◌,
  is_empty,
}
use com_webos_service_pdm.Os.{Trace}
use com_webos_service_pdm.Partition.{DiskPartitionInfo, StorageInterfaceTypes, usb_undefined}
use com_webos_service_pdm.Fs.{Slot, On}

-- `fsck_threads` holds the drive names of the threads of m_fsckThreadArray that have not ended.
pub record StorageDevice : Type 0 where
  pub is_power_on_connect : Bool
  pub device_num : ℤ
  pub usb_port_num : ℤ
  pub device_status : String
  pub error_reason : String
  pub device_name : String
  pub device_path : String
  pub serial_number : String
  pub vendor_name : String
  pub product_name : String
  pub dev_speed : String
  pub device_sub_type : String
  pub is_read_only : Bool
  pub root_path : String
  pub storage_type : StorageInterfaceTypes
  pub device_is_mounted : Bool
  pub has_unsupported_fs : Bool
  pub is_dev_add_event_notified : Bool
  pub is_sd_card_removed : Bool
  pub is_extra_sd_card : Bool
  pub partition_count : ℤ
  pub timeout_id : ℕ
  pub fsck_thread_count : ℤ
  pub fsck_threads : List String
  pub partitions : List DiskPartitionInfo

abbrev pub err_nothing : String
err_nothing = "NOTHING"

abbrev pub err_nomounted : String
err_nomounted = "NOMOUNTED"

abbrev pub err_unsupport_fs : String
err_unsupport_fs = "UNSUPPORT_FILESYSTEM"

abbrev pub err_ejected : String
err_ejected = "EJECTED"

abbrev pub err_need_fsck : String
err_need_fsck = "NEED_FSCK"

-- The constructor; `root` is what readRootPath() gives.
unfoldable pub new_device : String → StorageDevice
new_device root = record {
  is_power_on_connect = false;
  device_num = pos 0;
  usb_port_num = pos 0;
  device_status = err_nothing;
  error_reason = err_nomounted;
  device_name = "";
  device_path = "";
  serial_number = "";
  vendor_name = "";
  product_name = "";
  dev_speed = "";
  device_sub_type = "";
  is_read_only = false;
  root_path = root;
  storage_type = usb_undefined;
  device_is_mounted = false;
  has_unsupported_fs = false;
  is_dev_add_event_notified = false;
  is_sd_card_removed = false;
  is_extra_sd_card = false;
  partition_count = pos 0;
  timeout_id = 0;
  fsck_thread_count = pos 0;
  fsck_threads = [];
  partitions = [];
}

pub record Dev : Type 0 where
  pub device : StorageDevice
  pub open device use *
  pub trace : Trace

abbrev pub OnDev : Type 0 → Type 0
OnDev A = St Dev A

abbrev pub update : (StorageDevice → StorageDevice) → OnDev (Unit {0})
update f d = (tt, record d { device = f d.device })

abbrev pub get_dev : OnDev StorageDevice
get_dev d = (d.device, d)

abbrev pub io_dev {ℓ} : {A : Type ℓ} → St Trace A → St Dev A
io_dev m d = let (a, t) = m d.trace in (a, record d { trace = t })

-- findPartition
unfoldable pub find_name : String → List DiskPartitionInfo → Option DiskPartitionInfo
find_name name [] = none
find_name name (p ∷ ps) = if str_eq name p.drive_name then some p else find_name name ps

unfoldable pub find_partition : String → List DiskPartitionInfo → Option DiskPartitionInfo
unfolding find_name
find_partition name ps = if is_empty name then none else find_name name ps

-- An action on the first partition of a name, as through the pointer that findPartition returns.
module _ {A : Type 0} where
  abbrev pub keep_head :
      DiskPartitionInfo → A × List DiskPartitionInfo × Trace → A × List DiskPartitionInfo × Trace
  keep_head p (a, ps, t) = (a, p ∷ ps, t)

  abbrev pub put_head : A × Slot → List DiskPartitionInfo → A × List DiskPartitionInfo × Trace
  put_head (a, s) ps = (a, s.part ∷ ps, s.trace)

  unfoldable pub at_name :
      A → String → On A → List DiskPartitionInfo → Trace → A × List DiskPartitionInfo × Trace
  at_name default name m [] t = (default, [], t)
  at_name default name m (p ∷ ps) t =
      let rest = keep_head p (at_name default name m ps t) in
      if str_eq name p.drive_name then put_head (m (record { part = p; trace = t })) ps else rest

  unfoldable pub on_partition : A → String → On A → OnDev A
  unfolding at_name
  on_partition default name m d =
      let (a, ps, t) = at_name default name m d.partitions d.trace in
      (a, record d { device = record d.device { partitions = ps }; trace = t })

-- A loop over the partitions that keeps a result.
module _ {A : Type 0} where
  unfoldable pub sweep :
      (A → On A) → A → List DiskPartitionInfo → Trace → A × List DiskPartitionInfo × Trace
  sweep body a [] t = (a, [], t)
  sweep body a (p ∷ ps) t =
      let (a', s) = body a (record { part = p; trace = t }) in
      let (a'', ps', t') = sweep body a' ps s.trace in (a'', s.part ∷ ps', t')

  unfoldable pub on_partitions : (A → On A) → A → OnDev A
  on_partitions body a d =
      let (a', ps, t) = sweep body a d.partitions d.trace in
      (a', record d { device = record d.device { partitions = ps }; trace = t })
