-- ===== src/StorageDevice/Info/Sd.antt =====
-- Card readers and the dispatch of setDeviceInfo in devices/storage/StorageDevice.cpp.
pub mod Removal
use com_webos_service_pdm.Prelude.{
  ℕ, String, Bool, true, false, not, ◌&&◌, ◌||◌, List, [], ◌∷◌, ℤ, pos, ◌+ℤ◌, ◌*ℤ◌, ◌==ℤ◌, append,
  str_eq, is_empty, if◌then◌else◌, pure, branch, ◌>>=◌, ◌>>◌,
}
use com_webos_service_pdm.Utils.{to_int, split_at_colon}
use com_webos_service_pdm.Os.{
  Os, Trace, Io, EventType, remove, Target, no_device, notify, exec_shell_cmd, remove_dir_recursive,
}
use com_webos_service_pdm.DeviceClass.{
  Props, get_dev_type, get_dev_path, get_usb_driver, get_id_serial_short, get_id_model,
  get_id_instance, is_card_reader, is_disk_media_change, UsbDeviceTypes, dev_usb, dev_disk,
  dev_partition, usb_device_type,
}
use com_webos_service_pdm.Partition.{DiskPartitionInfo}
use com_webos_service_pdm.StorageDevice.State.{StorageDevice, Dev, OnDev, update, get_dev, io_dev}
use com_webos_service_pdm.StorageDevice.Mount.{delete_partition_data}
use com_webos_service_pdm.StorageDevice.Attach.{set_partition_info}
use com_webos_service_pdm.StorageDevice.Info.{
  powers_on, vendor_of, is_stick_type, behind_colon, count_partitions, update_device_info,
  update_disk_info,
}

module _ (os : Os) where
  abbrev instance_number : Props → String
  instance_number dev = behind_colon (get_id_instance dev) (split_at_colon (get_id_instance dev))

  -- Only a device that has no path yet takes over the properties.
  unfoldable pub update_multi_sd_card : Props → StorageDevice → StorageDevice
  update_multi_sd_card dev d =
      let found = record d {
        device_path = get_dev_path dev;
        serial_number = get_id_serial_short dev;
        device_sub_type = get_usb_driver dev;
        product_name = get_id_model dev;
        is_power_on_connect = powers_on os dev || d.is_power_on_connect;
        vendor_name = vendor_of dev;
        device_num =
            if is_empty (get_id_instance dev)
            then d.device_num
            else if is_empty (instance_number dev)
            then d.device_num
            else d.device_num +ℤ to_int (instance_number dev);
      } in
      if is_empty d.device_path then found else d

  remove_mount_dirs : List DiskPartitionInfo → Io (Unit {0})
  remove_mount_dirs [] t = (tt, t)
  remove_mount_dirs (p ∷ ps) t =
      let (removed, t') = remove_dir_recursive os p.mount_name t in remove_mount_dirs ps t'

  card_gone : OnDev (Unit {0})
  unfolding remove_mount_dirs
  card_gone = do
    delete_partition_data os
    d ← get_dev
    io_dev (remove_mount_dirs d.partitions)
    io_dev (notify remove no_device)
    update λ e. record e { is_sd_card_removed = true }

  abbrev pub is_media_change : Props → StorageDevice → Bool
  is_media_change dev d =
      is_stick_type d.storage_type
      && (str_eq (is_disk_media_change dev) "1" && str_eq (is_card_reader dev) "1")

  unfoldable pub check_sd_card_add_remove : Props → OnDev (Unit {0})
  unfolding card_gone count_partitions
  check_sd_card_add_remove dev d =
      let check = (do
        count ← count_partitions os d.device_name
        branch (count ==ℤ pos 0) card_gone (pure tt)) in
      if is_media_change dev d.device then check d else (tt, d)

  unfoldable pub trigger_uevent : OnDev Bool
  unfolding exec_shell_cmd
  trigger_uevent d =
      let cmd = append "udevadm trigger --name-match=/dev/" d.device_name in
      let trigger = (do
        update λ e. record e { is_sd_card_removed = false }
        out ← io_dev (exec_shell_cmd os cmd)
        pure true) in
      if d.is_sd_card_removed then trigger d else (false, d)

  set_info : UsbDeviceTypes → Props → OnDev (Unit {0})
  set_info dev_usb dev = update (update_device_info os dev)
  set_info dev_disk dev = do
    update_disk_info os dev
    update (update_multi_sd_card dev)
    check_sd_card_add_remove dev
  set_info dev_partition dev = set_partition_info os dev

  -- StorageDevice::setDeviceInfo
  unfoldable pub set_device_info : Props → OnDev (Unit {0})
  unfolding set_info trigger_uevent
  set_device_info dev = do
    triggered ← trigger_uevent
    branch triggered (pure tt) (set_info (usb_device_type (get_dev_type dev)) dev)

-- The port, speed and ten times the number of the device that holds the further card.
unfoldable pub set_extra_sd_card_details : StorageDevice → StorageDevice → StorageDevice
set_extra_sd_card_details other d = record d {
  usb_port_num = other.usb_port_num;
  dev_speed = other.dev_speed;
  device_num = other.device_num *ℤ pos 10;
}
