-- ===== src/Partition.antt =====
-- utils/DiskPartitionInfo.cpp and inc/private/Storage.h: one partition of a storage device.
pub mod Status
use com_webos_service_pdm.Prelude.{
  ℕ, String, Bool, true, false, not, ◌&&◌, append, str_eq, is_empty, if◌then◌else◌, ◌≡◌,
}
use com_webos_service_pdm.DeviceClass.{
  Props, get_dev_name, get_fs_type, get_fs_uuid, get_fs_label_enc,
}

pub data StorageInterfaceTypes : Type 0 where
  usb_stick usb_hdd usb_card_reader usb_mtp usb_ptp emmc usb_undefined : StorageInterfaceTypes

-- sMapStorageType
abbrev pub storage_type_string : StorageInterfaceTypes → String
storage_type_string usb_stick = "FLASH"
storage_type_string usb_hdd = "HDD"
storage_type_string usb_card_reader = "FLASH"
storage_type_string usb_mtp = "STREAMING"
storage_type_string usb_ptp = "STREAMING"
storage_type_string emmc = "EMMC"
storage_type_string usb_undefined = "UNKNOWN"

-- `fsck_status` is an int that holds an FsckState at first and a PdmDevStatus later. `locked` is
-- the mutex of the partition.
pub record DiskPartitionInfo : Type 0 where
  pub drive_name : String
  pub mount_name : String
  pub root_path : String
  pub fs_type : String
  pub uuid : String
  pub volume_label : String
  pub product_name : String
  pub storage_type : StorageInterfaceTypes
  pub is_mounted : Bool
  pub fsck_status : ℕ
  pub is_supported_fs : Bool
  pub drive_status : String
  pub drive_size : ℕ
  pub used_size : ℕ
  pub free_size : ℕ
  pub used_rate : ℕ
  pub power_status : Bool
  pub locked : Bool

abbrev pub mount_ok : String
mount_ok = "MOUNT_OK "

abbrev pub mount_not_ok : String
mount_not_ok = "MOUNT_NOT_OK "

abbrev pub is_mounting : String
is_mounting = "IS_MOUNTING "

abbrev pub umount_ok : String
umount_ok = "UMOUNT_OK "

abbrev pub umount_not_ok : String
umount_not_ok = "UMOUNT_NOT_OK "

abbrev pub is_unmounting : String
is_unmounting = "IS_UNMOUNTING "

abbrev pub need_fsck : String
need_fsck = "NEED_FSCK"

abbrev pub partition_fsck_none : ℕ
partition_fsck_none = 0

abbrev pub partition_fsck_started : ℕ
partition_fsck_started = 1

-- The constructor; `root` is what readRootPath() gives.
unfoldable pub new_partition : String → DiskPartitionInfo
new_partition root = record {
  drive_name = "";
  mount_name = "";
  root_path = root;
  fs_type = "";
  uuid = "";
  volume_label = "";
  product_name = "";
  storage_type = usb_undefined;
  is_mounted = false;
  fsck_status = partition_fsck_none;
  is_supported_fs = false;
  drive_status = mount_not_ok;
  drive_size = 0;
  used_size = 0;
  free_size = 0;
  used_rate = 0;
  power_status = true;
  locked = false;
}

abbrev pub unless_empty : String → String → String
unless_empty new old = if is_empty new then old else new

unfoldable pub set_partition_info : Props → String → DiskPartitionInfo → DiskPartitionInfo
set_partition_info dev device_root_path p =
    let named = not (is_empty (get_dev_name dev)) && not (is_empty device_root_path) in
    record p {
      drive_name = get_dev_name dev;
      root_path = if named then device_root_path else p.root_path;
      mount_name =
          if named then append device_root_path (append "/" (get_dev_name dev)) else p.mount_name;
      fs_type = unless_empty (get_fs_type dev) p.fs_type;
      uuid = unless_empty (get_fs_uuid dev) p.uuid;
      volume_label = unless_empty (get_fs_label_enc dev) p.volume_label;
    }

unfoldable pub set_drive_status : String → DiskPartitionInfo → DiskPartitionInfo
set_drive_status status p = record p { is_mounted = str_eq status mount_ok; drive_status = status }

abbrev pub set_fs_type : String → DiskPartitionInfo → DiskPartitionInfo
set_fs_type type p = record p { fs_type = unless_empty type p.fs_type }

abbrev pub set_volume_label_field : String → DiskPartitionInfo → DiskPartitionInfo
set_volume_label_field label p = record p { volume_label = unless_empty label p.volume_label }

-- try_lock(); no caller looks at its result.
abbrev pub partition_lock : DiskPartitionInfo → DiskPartitionInfo
partition_lock p = record p { locked = true }

abbrev pub partition_unlock : DiskPartitionInfo → DiskPartitionInfo
partition_unlock p = record p { locked = false }
