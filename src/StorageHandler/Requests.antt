-- ===== src/StorageHandler/Requests.antt =====
-- Commands in handlers/storage/StorageDeviceHandler.cpp: HandlerCommand with what it calls.
pub mod Replies
pub mod Unnamed
pub mod Umount
use com_webos_service_pdm.Prelude.{
  ℕ, ◌-◌, ◌%◌, ◌^◌, ltb, String, Char, code, ◌==◌, Bool, true, false, not, ◌||◌, ◌&&◌, List, [],
  ◌∷◌, Option, none, some, ℤ, pos, negsuc, is_nil, is_empty, if◌then◌else◌, pure, branch, ◌>>=◌,
  ◌>>◌,
}
use com_webos_service_pdm.Errors.{
  PdmDevStatus, success, error, drive_not_found, device_not_found, drive_not_mounted,
  CommandResponse, command_response, is_success,
}
use com_webos_service_pdm.Os.{Os, Trace, notify_observers, storage_device, unmountall, no_device}
use com_webos_service_pdm.Partition.{DiskPartitionInfo}
use com_webos_service_pdm.StorageDevice.State.{StorageDevice, Dev, OnDev}
use com_webos_service_pdm.StorageDevice.Mount.{umount_all_partition}
use com_webos_service_pdm.StorageDevice.Commands
use com_webos_service_pdm.StorageHandler.State.{
  StorageHandler, Handler, OnHandler, io_handler, get_device, has_num, has_name, on_device,
  on_devices,
}

-- The commands of inc/private/CommandTypes.h with their members.
pub data CommandType : Type 0 where
  format : String → String → String → CommandType
  eject : ℤ → CommandType
  fsck : String → CommandType
  set_volume_label : String → String → CommandType
  umount_all_drive : CommandType
  is_writable_drive : String → CommandType
  mount_fsck : Bool → String → CommandType
  space_info : Bool → String → CommandType
  io_performance no_command : CommandType

-- The reply: the members of commandResponse and those that single commands add.
pub record Reply : Type 0 where
  pub response : CommandResponse
  pub writable : Option Bool
  pub space : Option (ℤ × ℤ × ℤ × ℤ)

abbrev pub reply_of : PdmDevStatus → Reply
reply_of status = record { response = command_response status; writable = none; space = none }

-- (int32_t) of a uint64_t
unfoldable pub to_int32 : ℕ → ℤ
to_int32 n = let low = n % 2 ^ 32 in if ltb low (2 ^ 31) then pos low else negsuc (2 ^ 32 - low - 1)

-- std::remove of the blanks, and erase behind them.
unfoldable pub remove_blanks : String → String
remove_blanks String.[] = String.[]
remove_blanks (String.◌∷◌ c s) =
    let rest = remove_blanks s in if code c == 32 then rest else String.◌∷◌ c rest

-- Each handler says whether it took the command, and gives the reply it wrote, if it wrote one.
module _ (os : Os) where
  abbrev found : PdmDevStatus → Bool × Option Reply
  found status = (true, some (reply_of status))

  -- An action on the device of a name, and the status where there is none.
  abbrev on_named : String → PdmDevStatus → OnDev PdmDevStatus → OnHandler (Bool × Option Reply)
  on_named name missing m h = elim (get_device (has_name name) h.storage_list) [
    | none ↦ ((false, some (reply_of missing)), h)
    | some d ↦ let (status, h') = on_device missing (has_name name) m h in (found status, h')
  ]

  unfoldable pub format_request : String → String → String → OnHandler (Bool × Option Reply)
  format_request drive fs label =
      on_named drive drive_not_found (Commands.format_disk_start os drive fs label)

  eject_found : ℤ → OnHandler (Bool × Option Reply)
  eject_found num = do
    status ← on_device device_not_found (has_num num) (Commands.eject os)
    io_handler (notify_observers storage_device unmountall no_device)
    pure (found status)

  unfoldable pub eject_request : ℤ → OnHandler (Bool × Option Reply)
  unfolding eject_found
  eject_request num h = elim (get_device (has_num num) h.storage_list) [
    | none ↦ ((false, some (reply_of device_not_found)), h)
    | some d ↦ eject_found num h
  ]

  unfoldable pub fsck_request : String → OnHandler (Bool × Option Reply)
  fsck_request drive =
      on_named (remove_blanks drive) drive_not_found (Commands.fsck os (remove_blanks drive))

  abbrev umount_device : PdmDevStatus → OnDev PdmDevStatus
  umount_device result = do
    status ← umount_all_partition os false
    pure (if is_success status then result else status)

  umount_devices : OnHandler (Bool × Option Reply)
  umount_devices = do
    status ← on_devices umount_device success
    io_handler (notify_observers storage_device unmountall no_device)
    pure (found status)

  unfoldable pub umount_all_request : OnHandler (Bool × Option Reply)
  unfolding umount_devices
  umount_all_request h =
      if is_nil h.storage_list then ((false, some (reply_of success)), h) else umount_devices h

  unfoldable pub set_volume_label_request : String → String → OnHandler (Bool × Option Reply)
  set_volume_label_request drive label =
      on_named drive drive_not_found (Commands.set_partition_volume_label os drive label)

  abbrev pub writable_reply : PdmDevStatus × Bool → Reply
  writable_reply (status, writable) = record {
    response = command_response status;
    writable = if is_success status then some writable else none;
    space = none;
  }

  unfoldable pub is_writable_request : String → OnHandler (Bool × Option Reply)
  is_writable_request drive h = elim (get_device (has_name drive) h.storage_list) [
    | none ↦ ((false, some (reply_of error)), h)
    | some d ↦
        let (r, h') = on_device (error, false) (has_name drive) (Commands.is_writable os drive) h in
        ((true, some (writable_reply r)), h')
  ]

  unfoldable pub mount_fsck_request : Bool → String → OnHandler (Bool × Option Reply)
  mount_fsck_request need_fsck name =
      on_named name error (Commands.enforce_fsck_and_mount os need_fsck)

  space_reply : Option DiskPartitionInfo → Reply
  space_reply none = reply_of drive_not_mounted
  space_reply (some p) =
      if p.is_mounted
      then record {
        response = command_response success;
        writable = none;
        space = some (
          to_int32 p.drive_size,
          to_int32 p.free_size,
          to_int32 p.used_size,
          to_int32 p.used_rate,
        );
      }
      else reply_of drive_not_mounted

  unfoldable pub get_space_info_request : Bool → String → OnHandler (Bool × Option Reply)
  unfolding space_reply
  get_space_info_request direct_check drive h = elim (get_device (has_name drive) h.storage_list) [
    | none ↦ ((false, some (reply_of drive_not_found)), h)
    | some d ↦
        let (p, h') =
          on_device none (has_name drive) (Commands.get_space_info os drive direct_check) h in
        ((true, some (space_reply p)), h')
  ]

  -- A command that the switch does not name writes no reply.
  unfoldable pub handler_command : CommandType → OnHandler (Bool × Option Reply)
  handler_command (format drive fs label) = format_request drive fs label
  handler_command (eject num) = eject_request num
  handler_command (fsck drive) = fsck_request drive
  handler_command (set_volume_label drive label) = set_volume_label_request drive label
  handler_command umount_all_drive = umount_all_request
  handler_command (is_writable_drive drive) = is_writable_request drive
  handler_command (mount_fsck need_fsck name) = mount_fsck_request need_fsck name
  handler_command (space_info direct_check drive) = get_space_info_request direct_check drive
  handler_command io_performance = pure (false, none)
  handler_command no_command = pure (false, none)
