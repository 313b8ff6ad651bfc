-- ===== src/DeviceClass.antt =====
-- framework/DeviceClass.cpp: the udev properties of one event, and what is read from them.
-- framework/StorageSubsystem.cpp and SoundSubsystem.cpp: the properties of these classes.
-- inc/private/Device.h: the maps from texts to device types and actions.
pub mod Props
pub mod Factory
pub mod Card
use com_webos_service_pdm.Prelude.{
  ℕ, String, Char, code, Bool, true, false, ◌||◌, ◌==◌, List, [], ◌∷◌, append, str_eq, starts_with,
  is_empty, if◌then◌else◌, Option, none, some,
}

-- An unordered map of texts. Where operator[] misses it inserts the empty text, so reading a
-- missing key gives that.
abbrev pub Props : Type 0
Props = List (String × String)

unfoldable pub get_prop : String → Props → String
get_prop k [] = ""
get_prop k ((j, v) ∷ p) = if str_eq j k then v else get_prop k p

unfoldable pub put_prop : String → String → Props → Props
put_prop k v [] = (k, v) ∷ []
put_prop k v ((j, w) ∷ p) = if str_eq j k then (k, v) ∷ p else (j, w) ∷ put_prop k v p

-- std::string::find(pattern) != npos
unfoldable pub contains : String → String → Bool
contains pattern String.[] = starts_with String.[] pattern
contains pattern (String.◌∷◌ c s) = starts_with (String.◌∷◌ c s) pattern || contains pattern s

abbrev pub get_dev_type : Props → String
get_dev_type = get_prop "DEVTYPE"

abbrev pub get_subsystem_name : Props → String
get_subsystem_name = get_prop "SUBSYSTEM"

abbrev pub get_action : Props → String
get_action = get_prop "ACTION"

abbrev pub get_dev_path : Props → String
get_dev_path = get_prop "DEVPATH"

-- The text is copied unless it is empty, and the copy starts empty.
abbrev pub get_interface_class : Props → String
get_interface_class p =
    if is_empty (get_prop "ID_USB_INTERFACES" p) then "" else get_prop "ID_USB_INTERFACES" p

abbrev pub get_usb_driver : Props → String
get_usb_driver = get_prop "ID_USB_DRIVER"

abbrev pub get_id_serial_short : Props → String
get_id_serial_short = get_prop "ID_SERIAL_SHORT"

abbrev pub get_id_model : Props → String
get_id_model = get_prop "ID_MODEL"

abbrev pub get_is_power_on_connect : Props → String
get_is_power_on_connect = get_prop "isPowerOnConnect"

abbrev pub get_id_vendor_from_database : Props → String
get_id_vendor_from_database = get_prop "ID_VENDOR_FROM_DATABASE"

abbrev pub get_id_vendor : Props → String
get_id_vendor = get_prop "ID_VENDOR"

abbrev pub get_dev_number : Props → String
get_dev_number = get_prop "DEVNUM"

abbrev pub get_dev_name : Props → String
get_dev_name = get_prop "DEVNAME"

abbrev pub get_media_player_id : Props → String
get_media_player_id = get_prop "ID_MEDIA_PLAYER"

abbrev pub get_bluetooth_id : Props → String
get_bluetooth_id = get_prop "ID_BLUETOOTH"

abbrev pub get_speed : Props → String
get_speed = get_prop "SPEED"

abbrev pub get_fs_type : Props → String
get_fs_type = get_prop "ID_FS_TYPE"

abbrev pub get_fs_uuid : Props → String
get_fs_uuid = get_prop "ID_FS_UUID"

abbrev pub get_fs_label_enc : Props → String
get_fs_label_enc = get_prop "ID_FS_LABEL_ENC"

abbrev pub get_id_black_list : Props → String
get_id_black_list = get_prop "ID_BLACKLIST"

abbrev pub get_hard_disk : Props → String
get_hard_disk = get_prop "ID_ATA"

abbrev pub is_card_reader : Props → String
is_card_reader = get_prop "CARD_READER"

abbrev pub is_hard_disk : Props → String
is_hard_disk = get_prop "HARD_DISK"

abbrev pub get_id_instance : Props → String
get_id_instance = get_prop "ID_INSTANCE"

abbrev pub get_id_black_listed_super_speed_dev : Props → String
get_id_black_listed_super_speed_dev = get_prop "ID_BLACK_LISTED_SUPER_SPEED_DEVICE"

abbrev pub is_read_only : Props → String
is_read_only = get_prop "READ_ONLY"

abbrev pub is_disk_media_change : Props → String
is_disk_media_change = get_prop "DISK_MEDIA_CHANGE"

pub data DeviceActions : Type 0 where
  dev_add dev_remove dev_change dev_bind dev_unknown : DeviceActions

-- sMapDeviceActions.find, and getDeviceAction, which gives `dev_unknown` where it misses.
unfoldable pub find_device_action : String → Option DeviceActions
find_device_action action =
    if str_eq action "add"
    then some dev_add
    else if str_eq action "remove"
    then some dev_remove
    else if str_eq action "change"
    then some dev_change
    else if str_eq action "bind"
    then some dev_bind
    else none

abbrev pub known_action : Option DeviceActions → DeviceActions
known_action none = dev_unknown
known_action (some a) = a

unfoldable pub get_device_action : String → DeviceActions
unfolding find_device_action
get_device_action action = known_action (find_device_action action)

pub data UsbDeviceTypes : Type 0 where
  dev_usb dev_disk dev_partition : UsbDeviceTypes

-- sMapUsbDeviceType[type]: where operator[] misses it inserts the enumerator of value 0.
unfoldable pub usb_device_type : String → UsbDeviceTypes
usb_device_type type =
    if str_eq type "usb_device"
    then dev_usb
    else if str_eq type "disk"
    then dev_disk
    else if str_eq type "partition"
    then dev_partition
    else dev_usb

pub data DeviceSpeed : Type 0 where
  full high super : DeviceSpeed
