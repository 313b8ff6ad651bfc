-- ===== src/StorageDevice/Info.antt =====
-- setDeviceInfo of devices/storage/StorageDevice.cpp with what it calls, and
-- Device::setDeviceInfo of devices/Device.cpp.
pub mod Sd
use com_webos_service_pdm.Prelude.{
  ℕ, String, Char, code, Bool, true, false, not, ◌&&◌, ◌||◌, ◌==◌, List, [], ◌∷◌, Option, none,
  some, ℤ, pos, ◌+ℤ◌, ◌*ℤ◌, ◌==ℤ◌, append, str_eq, is_empty, if◌then◌else◌, pure, branch, ◌>>=◌,
  ◌>>◌,
}
use com_webos_service_pdm.Utils.{to_int, split_at_colon}
use com_webos_service_pdm.Os.{
  Os, EventType, remove, Target, no_device, notify, exec_shell_cmd, remove_dir_recursive,
}
use com_webos_service_pdm.DeviceClass.{
  Props, get_dev_type, get_action, get_dev_path, get_usb_driver, get_id_serial_short, get_id_model,
  get_is_power_on_connect, get_id_vendor_from_database, get_id_vendor, get_dev_number, get_dev_name,
  get_speed, is_card_reader, is_hard_disk, get_id_instance, get_id_black_listed_super_speed_dev,
  is_read_only, is_disk_media_change, DeviceActions, dev_add, dev_remove, dev_change, dev_bind,
  dev_unknown, get_device_action, UsbDeviceTypes, dev_usb, dev_disk, dev_partition, usb_device_type,
  DeviceSpeed, full, high, super,
}
use com_webos_service_pdm.Partition.{
  DiskPartitionInfo, StorageInterfaceTypes, usb_stick, usb_hdd, usb_card_reader,
}
use com_webos_service_pdm.StorageDevice.State.{StorageDevice, Dev, OnDev, update, get_dev, io_dev}
use com_webos_service_pdm.StorageDevice.Mount.{delete_partition_data}
use com_webos_service_pdm.StorageDevice.Attach.{set_partition_info}

-- Device::getDeviceSpeed: 12, 480 and 5000 are the values of DeviceSpeed.
unfoldable pub get_device_speed : ℤ → String
get_device_speed speed =
    if speed ==ℤ pos 5000
    then "SUPER"
    else if speed ==ℤ pos 480
    then "HIGH"
    else if speed ==ℤ pos 12
    then "FULL"
    else "LOW"

abbrev pub vendor_of : Props → String
vendor_of dev =
    if is_empty (get_id_vendor_from_database dev)
    then get_id_vendor dev
    else get_id_vendor_from_database dev

abbrev pub is_card_reader_type : StorageInterfaceTypes → Bool
is_card_reader_type usb_card_reader = true
is_card_reader_type _ = false

abbrev pub is_stick_type : StorageInterfaceTypes → Bool
is_stick_type usb_stick = true
is_stick_type _ = false

-- The text behind the last '/', if there is one.
after_slash : String → Option String
after_slash String.[] = none
after_slash (String.◌∷◌ c s) = elim (after_slash s) [
  | some rest ↦ some rest
  | none ↦ if code c == b'/' then some s else none
]

abbrev pub or_self : String → Option String → String
or_self s none = s
or_self s (some rest) = rest

-- substr(find_last_of("/") + 1)
pub base_name : String → String
unfolding after_slash
base_name s = or_self s (after_slash s)

abbrev pub behind_colon : String → Option (String × String) → String
behind_colon s none = s
behind_colon s (some (a, b)) = b

module _ (os : Os) where
  abbrev pub powers_on : Props → Bool
  powers_on dev = not os.power_state || str_eq (get_is_power_on_connect dev) "true"

  -- Device::setDeviceInfo
  unfoldable pub set_base_info : Props → StorageDevice → StorageDevice
  set_base_info dev d = record d {
    serial_number = get_id_serial_short dev;
    device_path = get_dev_path dev;
    device_sub_type = get_usb_driver dev;
    product_name = get_id_model dev;
    is_power_on_connect = powers_on dev || d.is_power_on_connect;
    vendor_name = vendor_of dev;
    device_num =
        if is_empty (get_dev_number dev) then d.device_num else to_int (get_dev_number dev);
  }

  unfoldable pub update_device_info : Props → StorageDevice → StorageDevice
  unfolding set_base_info get_device_speed
  update_device_info dev d =
      let b = set_base_info dev d in
      record b {
        dev_speed =
            if is_empty (get_speed dev)
            then b.dev_speed
            else get_device_speed (to_int (get_speed dev));
        error_reason =
            if str_eq (get_id_black_listed_super_speed_dev dev) "1"
            then "USB30_BLACKDEVICE"
            else b.error_reason;
      }

  unfoldable pub count_partitions : String → OnDev ℤ
  unfolding exec_shell_cmd
  count_partitions name d =
      let cmd = append "lsblk -n /dev/" (append name " | grep -c part") in
      let count = (do
        out ← io_dev (exec_shell_cmd os cmd)
        pure (if is_empty out then pos 0 else to_int out)) in
      if is_empty name then (pos 0, d) else count d

  abbrev pub interface_type : Props → StorageInterfaceTypes
  interface_type dev =
      if str_eq (is_card_reader dev) "1"
      then usb_card_reader
      else if str_eq (is_hard_disk dev) "1"
      then usb_hdd
      else usb_stick

  -- The members that an "add" of the disk sets before the partitions are counted.
  unfoldable pub disk_added : Props → StorageDevice → StorageDevice
  unfolding base_name
  disk_added dev d =
      let extend = not (is_empty d.root_path) && str_eq os.root_path d.root_path in
      record d {
        device_name = get_dev_name dev;
        is_read_only = str_eq (is_read_only dev) "1" || d.is_read_only;
        storage_type = interface_type dev;
        root_path =
            if extend then append d.root_path (base_name (get_dev_name dev)) else d.root_path;
      }

  -- A disk without partitions is its own partition, unless it is a card reader.
  empty_disk : Props → ℤ → OnDev (Unit {0})
  empty_disk dev count d =
      if count ==ℤ pos 0 && not (is_card_reader_type d.storage_type)
      then set_partition_info os dev d
      else (tt, d)

  disk_add : Props → OnDev (Unit {0})
  unfolding disk_added count_partitions empty_disk
  disk_add dev = do
    update (disk_added dev)
    d ← get_dev
    count ← count_partitions d.device_name
    update λ e. record e { partition_count = count }
    empty_disk dev count

  card_changed : ℤ → OnDev (Unit {0})
  card_changed count d =
      let deleted = (do delete_partition_data os; io_dev (notify remove no_device)) in
      if count ==ℤ d.partition_count
      then (tt, d)
      else if d.partition_count ==ℤ pos 0
      then (tt, record d { device = record d.device { partition_count = count } })
      else deleted d

  unfoldable pub handle_card_reader_device_change : OnDev (Unit {0})
  unfolding count_partitions card_changed
  handle_card_reader_device_change = do
    d ← get_dev
    count ← count_partitions d.device_name
    card_changed count

  disk_change : Props → OnDev (Unit {0})
  unfolding handle_card_reader_device_change count_partitions empty_disk
  disk_change dev d =
      let recount = (do
        count ← count_partitions d.device_name
        branch (str_eq (is_card_reader dev) "1") (pure tt) (empty_disk dev count)) in
      if is_card_reader_type d.storage_type then handle_card_reader_device_change d else recount d

  disk_action : DeviceActions → Props → OnDev (Unit {0})
  unfolding disk_add disk_change
  disk_action dev_add dev = disk_add dev
  disk_action dev_change dev = disk_change dev
  disk_action _ dev = pure tt

  unfoldable pub update_disk_info : Props → OnDev (Unit {0})
  unfolding disk_action
  update_disk_info dev = disk_action (get_device_action (get_action dev)) dev
