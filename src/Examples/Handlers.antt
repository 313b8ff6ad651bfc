-- ===== src/Examples/Handlers.antt =====
-- The theorems on the storage handler and the device manager at concrete inputs.
use com_webos_service_pdm.Prelude.{
  All, true, ◌≤◌, false, ◌≡◌, refl, List, [], ◌∷◌, pos, length, some,
}
use com_webos_service_pdm.Prelude.{◌⊎◌}
use com_webos_service_pdm.Errors.{PdmDevStatus, is_success, partition_not_found}
use com_webos_service_pdm.StorageDevice.State.{StorageDevice}
use com_webos_service_pdm.StorageHandler.Requests.{reply_of}
use com_webos_service_pdm.StorageHandler.Requests.Unnamed.{format_request-unnamed}
use com_webos_service_pdm.StorageHandler.Requests.Umount.{IsUnmounted, umount_all_drive-IsUnmounted}
use com_webos_service_pdm.Os.{mount, no_device}
use com_webos_service_pdm.DeviceClass.{Props}
use com_webos_service_pdm.StorageHandler.State.{
  Handler, new_handler, to_size_t, read_max_usb_storage_devices,
}
use com_webos_service_pdm.StorageHandler.Events
use com_webos_service_pdm.StorageHandler.Requests.{CommandType, umount_all_drive, handler_command}
use com_webos_service_pdm.StorageHandler.Requests
use com_webos_service_pdm.StorageHandler.Requests.Replies.{
  Outcome, status_of, handler_command-Outcome,
}
use com_webos_service_pdm.StorageHandler.Power
use com_webos_service_pdm.StorageHandler.Power.{prepare_suspend}
use com_webos_service_pdm.StorageHandler.Reach.{
  Request, event, command, power, callback, serve_all, serve_all-length,
}
use com_webos_service_pdm.DeviceManager.{DeviceHandler, default_plugin_event, handle_pdm_command}
use com_webos_service_pdm.DeviceManager.Order.{handle_pdm_command-append}
use com_webos_service_pdm.Examples.{quiet, stick, usb_event}

abbrev one_stick : Handler
one_stick = record {
  state = record { max_storage_devices = 8; space_thread = false; storage_list = stick ∷ [] };
  trace = [];
}

abbrev moves : List Request
moves =
    event usb_event
    ∷ command umount_all_drive
    ∷ power prepare_suspend
    ∷ callback mount no_device
    ∷ []

serve_all-length_example :
    length
      (serve_all quiet moves
        (record { state = new_handler (some (pos 1)); trace = [] })).storage_list
    ≤ to_size_t (read_max_usb_storage_devices (some (pos 1)))
serve_all-length_example = serve_all-length quiet (some (pos 1)) [] moves

handler_command-Outcome_example :
    let ((taken, reply), h) = handler_command quiet (CommandType.eject (pos 4)) one_stick in
    Outcome (status_of quiet (CommandType.eject (pos 4)) one_stick) one_stick taken reply h
handler_command-Outcome_example =
    handler_command-Outcome quiet (CommandType.eject (pos 4)) one_stick

-- The storage handler, and one that takes nothing.
abbrev storage : DeviceHandler Handler
storage = record {
  handler_event = Events.handler_event quiet;
  handler_command =
      λ c h. let ((taken, reply), h') = Requests.handler_command quiet c h in (taken, h');
  handle_plugin_event = Power.handle_plugin_event quiet;
}

abbrev idle : DeviceHandler Handler
idle = record {
  handler_event = λ dev h. (false, h);
  handler_command = λ c h. (false, h);
  handle_plugin_event = default_plugin_event;
}

handle_pdm_command-append_example :
    handle_pdm_command (idle ∷ storage ∷ idle ∷ []) umount_all_drive one_stick
    ≡ storage.handler_command umount_all_drive one_stick
unfolding Requests.handler_command Requests.umount_all_request
handle_pdm_command-append_example =
    handle_pdm_command-append (idle ∷ []) (idle ∷ []) storage umount_all_drive one_stick (refl, tt)
      refl

abbrev block_event : Props
block_event =
    ("ACTION", "change")
    ∷ ("DEVTYPE", "disk")
    ∷ ("SUBSYSTEM", "block")
    ∷ ("DEVNAME", "sda")
    ∷ ("ID_USB_INTERFACES", ":080650:")
    ∷ ("ID_BLACKLIST", "0")
    ∷ []

abbrev unnamed : StorageDevice
unnamed = record stick { device_name = ""; partitions = [] }

format_request-unnamed_example :
    let h : Handler = record {
      state = record {
        max_storage_devices = 8;
        space_thread = false;
        storage_list = unnamed ∷ stick ∷ [];
      };
      trace = [];
    } in
    handler_command quiet (CommandType.format "sda1" "vfat" "MUSIC") h
    ≡ ((true, some (reply_of partition_not_found)), h)
format_request-unnamed_example =
    format_request-unnamed quiet "sda1" "vfat" "MUSIC" unnamed (stick ∷ []) 8 false []
      (record { no_name = refl; no_partition = refl })

umount_all_drive-IsUnmounted_example :
    let ((taken, reply), h) = handler_command quiet umount_all_drive one_stick in
    (status : PdmDevStatus) × (reply ≡ some (reply_of status))
    × ((is_success status ≡ false) ⊎ All IsUnmounted h.storage_list)
umount_all_drive-IsUnmounted_example = umount_all_drive-IsUnmounted quiet one_stick
