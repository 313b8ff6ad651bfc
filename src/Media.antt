-- ===== src/Media.antt =====
-- inc/private/Storage.h and devices/Storage.cpp for the devices that are mounted as media players
-- and cameras: devices/mtp and devices/ptp, with their handlers.
pub mod Mtp
pub mod Ptp
pub mod Within
use com_webos_service_pdm.Prelude.{String, Bool, true, false, List, [], ◌∷◌, ◌++◌, Option, ℤ}
use com_webos_service_pdm.Utils.{split_args}
use com_webos_service_pdm.Os.{Os, Io, run}
use com_webos_service_pdm.Partition.{StorageInterfaceTypes}
use com_webos_service_pdm.StorageDevice.State.{err_unsupport_fs}
use com_webos_service_pdm.Devices.{Device, new_device}

-- The members that these devices set. The root path starts as the common one of the configuration.
pub record Storage : Type 0 where
  pub device : Device
  pub open device use *
  pub is_mounted : Bool
  pub power_status : Bool
  pub drive_name : String
  pub fs_type : String
  pub mount_name : String
  pub root_path : String
  pub storage_type : StorageInterfaceTypes

unfoldable pub new_storage : Os → String → String → StorageInterfaceTypes → Storage
unfolding new_device
new_storage os type fs interface = record {
  device = new_device type err_unsupport_fs;
  is_mounted = false;
  power_status = true;
  drive_name = "";
  fs_type = fs;
  mount_name = "";
  root_path = os.root_path;
  storage_type = interface;
}

-- The handlers' resume and suspend of a device.
unfoldable pub resume_request : Storage → Storage
resume_request d = record d {
  device = record d.device { is_power_on_connect = true };
  power_status = true;
}

unfoldable pub suspend_request : Storage → Storage
suspend_request d = record d { power_status = false }

-- The command of unmountDevice.
unfoldable pub fusermount : Os → String → Io ℤ
fusermount os mount_name = run os (split_args "/usr/bin/fusermount -u " ++ mount_name ∷ [])
