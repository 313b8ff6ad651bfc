-- ===== src/Examples/Peripherals.antt =====
-- The theorems on the other devices at concrete inputs.
use com_webos_service_pdm.Prelude.{ℕ, true, false, ◌≡◌, refl, [], ◌∷◌, ◌++◌}
use com_webos_service_pdm.DeviceClass.{Props, get_prop, contains}
use com_webos_service_pdm.StorageHandler.Requests.{umount_all_drive}
use com_webos_service_pdm.Devices.{Device, has_path, get_device, put_device, new_device}
use com_webos_service_pdm.Devices.Serve
use com_webos_service_pdm.Devices.Serve.{command, serve_all}
use com_webos_service_pdm.DeviceManager.{ask_all}
use com_webos_service_pdm.Peripherals.{Flagged}
use com_webos_service_pdm.Peripherals.Nfc
use com_webos_service_pdm.Peripherals.Nfc.Sticky.{events, nfc_handler, nfc_removed-shadows}
use com_webos_service_pdm.Peripherals.Sound.{SoundDevice, new_sound}
use com_webos_service_pdm.Peripherals.Sound.Listed.{
  IsListed, sound_operations, sound_cards-AreListed,
}
use com_webos_service_pdm.Peripherals.Video
use com_webos_service_pdm.Peripherals.Video.{
  VideoDevice, VideoHandler, new_video, sub_of, update_device_info,
}
use com_webos_service_pdm.Peripherals.Video.Silent.{video_add-silent}
use com_webos_service_pdm.Peripherals.Cdc
use com_webos_service_pdm.Peripherals.Cdc.{CdcHandler, destroy, dongle_not_supported}
use com_webos_service_pdm.Peripherals.Cdc.Store
use com_webos_service_pdm.Peripherals.Cdc.Store.{IsLive, dongle, cdc_pointers-AreLive}
use com_webos_service_pdm.Peripherals.Cdc.Twice.{cdc_modem-deleted_twice}
use com_webos_service_pdm.Examples.{quiet, usb_event}

-- The removal of a partition.
abbrev gone_event : Props
gone_event =
    ("ACTION", "remove") ∷ ("DEVTYPE", "partition") ∷ ("DEVPATH", "/devices/usb1/1-2/sda1") ∷ []

abbrev rest_of_daemon : ℕ
rest_of_daemon = 5

abbrev no_reader : Flagged Device
no_reader = record { handler = record { devices = []; trace = [] }; device_removed = true }

nfc_removed-shadows_example :
    let g = events quiet (usb_event ∷ []) no_reader in
    ask_all gone_event (nfc_handler quiet ∷ nfc_handler quiet ∷ []) (g, rest_of_daemon)
    ≡ (true, ((Nfc.handler_event quiet gone_event g).1, rest_of_daemon))
unfolding get_prop
nfc_removed-shadows_example =
    nfc_removed-shadows quiet (nfc_handler quiet ∷ []) (usb_event ∷ []) gone_event no_reader
      rest_of_daemon refl refl refl

abbrev card_event : Props
card_event =
    ("ACTION", "add")
    ∷ ("SUBSYSTEM", "sound")
    ∷ ("DEVNAME", "snd/pcmC1D0p")
    ∷ ("DEVPATH", "/devices/usb1/1-3/sound/card1/pcmC1D0p")
    ∷ []

abbrev card_gone : Props
card_gone = ("ACTION", "remove") ∷ ("SUBSYSTEM", "sound") ∷ ("DEVPATH", "/devices/b") ∷ []

abbrev card_at : SoundDevice → SoundDevice
card_at d = record d { device = record d.device { device_path = "/devices/b" } }

-- A card with the path /devices/b behind one with the path /devices/a.
abbrev second_card : SoundDevice
second_card = card_at new_sound

abbrev first_card : SoundDevice
first_card = record new_sound { device = record new_sound.device { device_path = "/devices/a" } }

abbrev two_cards : Flagged SoundDevice
two_cards = record {
  handler = record { devices = first_card ∷ second_card ∷ []; trace = [] };
  device_removed = false;
}

sound_cards-AreListed_example :
    let start : Flagged SoundDevice = record {
      handler = record { devices = []; trace = [] };
      device_removed = false;
    } in
    IsListed
      (serve_all
        (sound_operations quiet)
        (Serve.event card_event ∷ Serve.event card_event ∷ command umount_all_drive ∷ [])
        start).handler
sound_cards-AreListed_example =
    sound_cards-AreListed quiet
      (Serve.event card_event ∷ Serve.event card_event ∷ command umount_all_drive ∷ []) []

abbrev camera_part : Props
camera_part =
    ("ACTION", "add")
    ∷ ("SUBSYSTEM", "video4linux")
    ∷ ("DEVNAME", "video1")
    ∷ ("DEVPATH", "/devices/usb1/1-5/video1")
    ∷ ("ID_USB_INTERFACES", ":0e0100:")
    ∷ ("ID_V4L_CAPABILITIES", ":capture:video_output:")
    ∷ []

abbrev camera : VideoDevice
camera = record new_video { device = record new_video.device { device_path = "/devices/usb1/1-5" } }

abbrev one_camera : VideoHandler
one_camera = record {
  flagged = record {
    handler = record { devices = camera ∷ []; trace = [] };
    device_removed = false;
  };
  is_camera_ready = true;
}

video_add-silent_example :
    let v = (Video.handler_event quiet camera_part one_camera).1 in
    (v.trace ≡ [])
    × (v.devices
        ≡ put_device
            (has_path Video.device_of "/devices/usb1/1-5/video1")
            (update_device_info camera_part camera)
            (camera ∷ []))
    × ((update_device_info camera_part camera).sub_devices ≡ [] ++ sub_of camera_part ∷ [])
unfolding get_prop contains new_video new_device get_device
video_add-silent_example =
    video_add-silent quiet camera_part one_camera camera refl refl refl refl refl refl refl refl
      refl refl

abbrev modem_event : Props
modem_event =
    ("ACTION", "add")
    ∷ ("DEVTYPE", "usb_device")
    ∷ ("DEVPATH", "/devices/usb1/1-6")
    ∷ ("ID_USB_MODEM_DONGLE", "1")
    ∷ []

abbrev no_adapter : CdcHandler
no_adapter = record {
  objects = [];
  deleted = [];
  list = [];
  is_dongle_supported = true;
  device_removed = false;
  trace = [];
}

cdc_pointers-AreLive_example : IsLive (
    Store.serve_all quiet
      (Store.event modem_event ∷ dongle dongle_not_supported ∷ Store.event modem_event ∷ [])
      no_adapter)
cdc_pointers-AreLive_example =
    cdc_pointers-AreLive quiet
      (Store.event modem_event ∷ dongle dongle_not_supported ∷ Store.event modem_event ∷ [])
      no_adapter (record { live = tt; made = tt; gone = tt; once = tt })

cdc_modem-deleted_twice_example :
    (destroy (Cdc.handler_event quiet modem_event no_adapter).1).deleted
    ≡ 0 ∷ 0 ∷ (destroy no_adapter).deleted
unfolding get_prop Cdc.get_device
cdc_modem-deleted_twice_example =
    cdc_modem-deleted_twice quiet modem_event no_adapter refl refl refl refl refl
