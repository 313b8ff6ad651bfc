-- ===== src/Errors.antt =====
-- inc/private/PdmErrors.h: the status codes of device operations and their texts, and the reply
-- that DeviceHandler::commandResponse makes of a status.
use com_webos_service_pdm.Prelude.{ℕ, String, Bool, true, false, Option, none, some}

pub data PdmDevStatus : Type 0 where
  success mount_fail mount_all_fail umount_fail umount_all_fail eject_fail format_fail :
      PdmDevStatus
  fsck_fail io_perf_fail fsck_timeout set_volume_label_fail volume_label_empty : PdmDevStatus
  unsupported_fs busy not_busy writable read_only drive_name_empty : PdmDevStatus
  partition_not_found root_path_empty device_not_found drive_not_found : PdmDevStatus
  drive_not_mounted error : PdmDevStatus

abbrev pub status_code : PdmDevStatus → ℕ
status_code success = 1000
status_code mount_fail = 1001
status_code mount_all_fail = 1002
status_code umount_fail = 1003
status_code umount_all_fail = 1004
status_code eject_fail = 1005
status_code format_fail = 1006
status_code fsck_fail = 1007
status_code io_perf_fail = 1008
status_code fsck_timeout = 1009
status_code set_volume_label_fail = 1010
status_code volume_label_empty = 1011
status_code unsupported_fs = 1012
status_code busy = 1013
status_code not_busy = 1014
status_code writable = 1015
status_code read_only = 1016
status_code drive_name_empty = 1017
status_code partition_not_found = 1018
status_code root_path_empty = 1019
status_code device_not_found = 1020
status_code drive_not_found = 1021
status_code drive_not_mounted = 1022
status_code error = 1023

pub error_text : PdmDevStatus → String
error_text success = "Device operation successful"
error_text mount_fail = "Failed to mount drive"
error_text mount_all_fail = "Failed to mount all drives"
error_text umount_fail = "Failed to un-mount drive"
error_text umount_all_fail = "Failed to un-mount all drives"
error_text eject_fail = "Failed to eject device"
error_text format_fail = "Failed to format drive"
error_text fsck_fail = "Failed to file system check for drive"
error_text io_perf_fail = "Failed to test IO performance"
error_text fsck_timeout = "Fsck command has timed out"
error_text set_volume_label_fail = "Failed to set volume label for drive"
error_text volume_label_empty = "Volume label is empty"
error_text unsupported_fs = "Device has unsupported file system"
error_text busy = "Device is busy"
error_text not_busy = "Device is free"
error_text writable = "Drive is writable"
error_text read_only = "Drive is read only"
error_text drive_name_empty = "Drive name is empty"
error_text partition_not_found = "Partition not found in device"
error_text root_path_empty = "Device root path is empty"
error_text device_not_found = "Device not found"
error_text drive_not_found = "Drive not found in device"
error_text drive_not_mounted = "Drive not mounted"
error_text error = "Device error unknown"

abbrev pub is_success : PdmDevStatus → Bool
is_success success = true
is_success _ = false

-- The members of the reply that commandResponse puts in: `returnValue`, and with an error
-- `errorCode` and `errorText`.
pub record CommandResponse : Type 0 where
  pub return_value : Bool
  pub error_info : Option (ℕ × String)

unfoldable pub command_response : PdmDevStatus → CommandResponse
unfolding error_text
command_response success = record { return_value = true; error_info = none }
command_response s = record {
  return_value = false;
  error_info = some (status_code s, error_text s);
}
