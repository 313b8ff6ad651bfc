-- ===== src/Examples.antt =====
-- Concrete inputs for the theorems: a system, partitions, devices and events.
mod Alerts
mod Devices
mod Handlers
mod Media
mod Peripherals
mod Netlink
mod Queue
mod Texts
use com_webos_service_pdm.Prelude.{
  ℕ, String, Bool, true, false, List, [], ◌∷◌, Option, none, some, ℤ, pos,
}
use com_webos_service_pdm.Utils.{Child, forked, exited}
use com_webos_service_pdm.Os.{Os, Trace, Statfs}
use com_webos_service_pdm.DeviceClass.{Props}
use com_webos_service_pdm.Partition.{DiskPartitionInfo, usb_stick, mount_ok, umount_ok}
use com_webos_service_pdm.Fs.{Slot}
use com_webos_service_pdm.StorageDevice.State.{StorageDevice, Dev}

abbrev pub small_fs : Statfs
small_fs = record { f_bsize = 4096; f_blocks = 1000; f_bavail = 250 }

-- A system on which every call succeeds and no file is open.
abbrev pub quiet : Os
quiet = record {
  child = λ t argv. forked 0 (exited 0);
  shell = λ t cmd. "";
  is_directory = λ t dir. true;
  create_directories = λ t dir. some true;
  remove_all = λ t dir. some true;
  mount = λ t dev dir fs flags options. 0;
  umount2 = λ t dir flags. 0;
  statfs = λ t dir. some small_fs;
  mtab = λ t. some [];
  read_dir = λ t dir. some ("." ∷ "store" ∷ []);
  timeout_add = λ t. 7;
  root_path = "/tmp/usb";
  power_state = true;
}

-- One on which unmounts fail with EBUSY.
abbrev pub stuck : Os
stuck = record quiet { umount2 = λ t dir flags. 16 }

abbrev pub stick_partition : DiskPartitionInfo
stick_partition = record {
  drive_name = "sda1";
  mount_name = "/tmp/usb/sda/sda1";
  root_path = "/tmp/usb/sda";
  fs_type = "vfat";
  uuid = "1234-ABCD";
  volume_label = "MUSIC";
  product_name = "Stick";
  storage_type = usb_stick;
  is_mounted = true;
  fsck_status = 0;
  is_supported_fs = true;
  drive_status = mount_ok;
  drive_size = 4000;
  used_size = 3000;
  free_size = 1000;
  used_rate = 75;
  power_status = true;
  locked = false;
}

abbrev pub stick_slot : Slot
stick_slot = record { part = stick_partition; trace = [] }

abbrev pub stick : StorageDevice
stick = record {
  is_power_on_connect = false;
  device_num = pos 4;
  usb_port_num = pos 1;
  device_status = "NOTHING";
  error_reason = "NOTHING";
  device_name = "sda";
  device_path = "/devices/usb1/1-1";
  serial_number = "0001";
  vendor_name = "Maker";
  product_name = "Stick";
  dev_speed = "HIGH";
  device_sub_type = "usb-storage";
  is_read_only = false;
  root_path = "/tmp/usb/sda";
  storage_type = usb_stick;
  device_is_mounted = true;
  has_unsupported_fs = false;
  is_dev_add_event_notified = true;
  is_sd_card_removed = false;
  is_extra_sd_card = false;
  partition_count = pos 1;
  timeout_id = 0;
  fsck_thread_count = pos 0;
  fsck_threads = [];
  partitions = stick_partition ∷ [];
}

abbrev pub stick_dev : Dev
stick_dev = record { device = stick; trace = [] }

abbrev pub disk_event : Props
disk_event =
    ("ACTION", "change")
    ∷ ("DEVTYPE", "disk")
    ∷ ("SUBSYSTEM", "block")
    ∷ ("DEVNAME", "sda")
    ∷ ("DISK_MEDIA_CHANGE", "1")
    ∷ ("CARD_READER", "1")
    ∷ ("ID_BLACKLIST", "0")
    ∷ []

abbrev pub usb_event : Props
usb_event =
    ("ACTION", "add")
    ∷ ("DEVTYPE", "usb_device")
    ∷ ("DEVPATH", "/devices/usb1/1-2")
    ∷ ("ID_USB_INTERFACES", ":080650:")
    ∷ []
