-- ===== src/Examples/Media.antt =====
-- The theorems on media players and cameras at concrete inputs.
use com_webos_service_pdm.Prelude.{◌+◌, true, false, ◌≡◌, refl, [], ◌∷◌, pos}
use com_webos_service_pdm.Utils
use com_webos_service_pdm.Os.{Call, remove_before_mount, mtp_device, this_device, run}
use com_webos_service_pdm.DeviceClass.{Props, get_prop, contains}
use com_webos_service_pdm.Partition.{usb_mtp}
use com_webos_service_pdm.StorageHandler.Requests.{eject}
use com_webos_service_pdm.StorageHandler.Power.{request_umountall, prepare_suspend}
use com_webos_service_pdm.StorageDevice.Mount.Calls.{count, is_command}
use com_webos_service_pdm.Devices.{Handler, get_device, sweep}
use com_webos_service_pdm.Devices.Serve.{event, command, power, serve_all}
use com_webos_service_pdm.Media
use com_webos_service_pdm.Media.{Storage}
use com_webos_service_pdm.Media.Mtp
use com_webos_service_pdm.Media.Mtp.{mtp_umount}
use com_webos_service_pdm.Media.Mtp.Handled.{mtp_operations, serve_all-IsSound}
use com_webos_service_pdm.Media.Mtp.Eject.{Answers, has_num, mtp_eject-Answers}
use com_webos_service_pdm.Media.Mtp.Twice.{mtp_umount_all_twice}
use com_webos_service_pdm.Media.Mtp.Root.{mtp_event-root}
use com_webos_service_pdm.Media.Ptp
use com_webos_service_pdm.Media.Ptp.{PtpDevice}
use com_webos_service_pdm.Media.Ptp.Handled.{ptp_operations, serve_all-AreCameras}
use com_webos_service_pdm.Media.Ptp.Twice.{count_mounted, ptp_umount_all-count}
use com_webos_service_pdm.Media.Ptp.Root.{ptp_event-root}
use com_webos_service_pdm.Examples.{quiet}

abbrev player_event : Props
player_event =
    ("ACTION", "add")
    ∷ ("DEVTYPE", "usb_device")
    ∷ ("DEVNAME", "bus/usb/001/004")
    ∷ ("DEVNUM", "4")
    ∷ ("DEVLINKS", "bus/usb/MTP-1-4")
    ∷ ("ID_MEDIA_PLAYER", "1")
    ∷ []

-- The same with no links.
abbrev bare_event : Props
bare_event = ("ACTION", "add") ∷ ("DEVNAME", "bus/usb/001/004") ∷ ("ID_MEDIA_PLAYER", "1") ∷ []

abbrev camera_event : Props
camera_event =
    ("ACTION", "add")
    ∷ ("DEVTYPE", "usb_device")
    ∷ ("BUSNUM", "1")
    ∷ ("DEVNUM", "5")
    ∷ ("ID_USB_INTERFACES", ":060101:")
    ∷ []

-- The event of an interface of the camera.
abbrev interface_event : Props
interface_event =
    ("ACTION", "add")
    ∷ ("DEVTYPE", "usb_interface")
    ∷ ("SUBSYSTEM", "usb")
    ∷ ("ID_USB_INTERFACES", ":060101:")
    ∷ []

abbrev player : Storage
player = record {
  device = record {
    device_type = "MTP";
    error_reason = "NOTHING";
    is_power_on_connect = false;
    device_num = pos 4;
    bus_num = pos 1;
    device_name = "";
    device_path = "/devices/usb1/1-4";
    serial_number = "0001";
    vendor_name = "Maker";
    product_name = "Player";
    dev_speed = "HIGH";
    device_sub_type = "usb";
  };
  is_mounted = true;
  power_status = true;
  drive_name = "MTP-1-4";
  fs_type = "mtp_fuse";
  mount_name = "/tmp/usb/MTP-1-4/MTP-1-4";
  root_path = "/tmp/usb/MTP-1-4";
  storage_type = usb_mtp;
}

abbrev one_player : Handler Storage
one_player = record { devices = player ∷ []; trace = [] }

abbrev one_camera : Handler PtpDevice
one_camera = record {
  devices = record { storage = player; ptp_dev_num = pos 4; drive_status = "MOUNT_OK " } ∷ [];
  trace = [];
}

abbrev no_player : Handler Storage
no_player = record { devices = []; trace = [] }

abbrev no_camera : Handler PtpDevice
no_camera = record { devices = []; trace = [] }

serve_all-IsSound_example : Mtp.Handled.IsSound quiet (
    serve_all
      (mtp_operations quiet)
      (event player_event ∷ power request_umountall ∷ command (eject (pos 4)) ∷ [])
      no_player)
serve_all-IsSound_example =
    serve_all-IsSound quiet
      (event player_event ∷ power request_umountall ∷ command (eject (pos 4)) ∷ [])

mtp_event-root_example : Mtp.handler_event quiet bare_event one_player ≡ (
  false,
  record {
    devices = player ∷ [];
    trace =
        Call.remove_all "/tmp/usb" ∷ Call.observers mtp_device remove_before_mount this_device ∷ [];
  },
)
unfolding get_prop
mtp_event-root_example = mtp_event-root quiet bare_event one_player refl refl refl refl refl

mtp_eject-Answers_example :
    Answers quiet
      (has_num (pos 4))
      (get_device (has_num (pos 4)) one_player.devices)
      one_player
      (Mtp.eject_request quiet (pos 4) one_player)
mtp_eject-Answers_example = mtp_eject-Answers quiet (pos 4) one_player

mtp_umount_all_twice_example :
    let h = (Mtp.umount_all_drive quiet one_player).1 in Mtp.umount_all_drive quiet h ≡ (false, h)
unfolding Mtp.umount_all_drive sweep mtp_umount Media.fusermount run Utils.run_command
    Utils.split_args Utils.command_word Utils.wait_loop
mtp_umount_all_twice_example = mtp_umount_all_twice quiet one_player refl refl

serve_all-AreCameras_example : Ptp.Handled.IsSound quiet (
    serve_all
      (ptp_operations quiet)
      (event camera_event ∷ power prepare_suspend ∷ command (eject (pos 5)) ∷ [])
      no_camera)
serve_all-AreCameras_example =
    serve_all-AreCameras quiet
      (event camera_event ∷ power prepare_suspend ∷ command (eject (pos 5)) ∷ [])

ptp_event-root_example :
    Ptp.handler_event quiet interface_event one_camera
    ≡ (true, record { devices = one_camera.devices; trace = Call.remove_all "/tmp/usb" ∷ [] })
unfolding get_prop contains
ptp_event-root_example =
    ptp_event-root quiet interface_event one_camera refl refl refl refl refl refl

ptp_umount_all-count_example :
    let h = (Ptp.umount_all_drive quiet one_camera).1 in
    (h.devices ≡ one_camera.devices)
    × (count is_command h.trace
        ≡ count_mounted one_camera.devices + count is_command one_camera.trace)
ptp_umount_all-count_example = ptp_umount_all-count quiet one_camera
