-- ===== src/Peripherals/Cdc.antt =====
-- devices/cdc/CdcDevice.cpp and handlers/cdc/CdcDeviceHandler.cpp: network and serial adapters. The
-- handler's list can hold a pointer more than once, so devices stand in a store and the list holds
-- their places.
pub mod Store
pub mod Twice
use com_webos_service_pdm.Prelude.{
  ℕ, zero, suc, ◌==◌, String, Bool, true, false, not, ◌&&◌, ◌||◌, List, [], ◌∷◌, ◌++◌, Option, none,
  some, St, str_eq, is_empty, length, if◌then◌else◌, pure,
}
use com_webos_service_pdm.Os.{
  Os, Trace, add, remove, cdc_device, no_device, this_device, notify_observers,
}
use com_webos_service_pdm.DeviceClass.{
  Props, get_prop, get_action, get_dev_type, get_dev_path, get_usb_driver, get_subsystem_name,
  get_interface_class, contains, DeviceActions, dev_add, dev_remove, find_device_action,
}
use com_webos_service_pdm.StorageDevice.State.{err_nothing}
use com_webos_service_pdm.StorageHandler.Requests.{CommandType, Reply}
use com_webos_service_pdm.Devices
use com_webos_service_pdm.Devices.{Device, new_device, has_path}
use com_webos_service_pdm.Peripherals.{set_speed}

pub record CdcDevice : Type 0 where
  pub device : Device
  pub open device use *
  pub is_toast_required : Bool
  pub if_index : String
  pub link_mode : String
  pub duplex : String
  pub address : String
  pub operstate : String

unfoldable pub new_cdc : CdcDevice
new_cdc = record {
  device = new_device "CDC" err_nothing;
  is_toast_required = true;
  if_index = "";
  link_mode = "";
  duplex = "";
  address = "";
  operstate = "";
}

abbrev pub get_usb_modem_id : Props → String
get_usb_modem_id = get_prop "ID_USB_MODEM_DONGLE"

-- getIdUsbSerial and getUsbSerialId read the same property.
abbrev pub get_usb_serial_id : Props → String
get_usb_serial_id = get_prop "ID_USB_SERIAL"

abbrev pub get_usb_serial_sub_type : Props → String
get_usb_serial_sub_type = get_prop "USB_SERIAL_SUB_TYPE"

abbrev pub get_net_if_index : Props → String
get_net_if_index = get_prop "NET_IFIINDEX"

abbrev pub get_net_link_mode : Props → String
get_net_link_mode = get_prop "NET_LINK_MODE"

abbrev pub get_net_duplex : Props → String
get_net_duplex = get_prop "NET_DUPLEX"

abbrev pub get_net_address : Props → String
get_net_address = get_prop "NET_ADDRESS"

abbrev pub get_net_oper_state : Props → String
get_net_oper_state = get_prop "NET_OPERSTATE"

abbrev pub is_modem : Props → Bool
is_modem dev = str_eq (get_usb_modem_id dev) "1"

serial_info : Props → Device → Device
serial_info dev d =
    if str_eq "1" (get_usb_serial_id dev)
    then record d { device_type = "USB2SERIAL"; device_sub_type = get_usb_serial_sub_type dev }
    else d

modem_info : Props → Device → Device
modem_info dev d =
    if is_modem dev then record d { device_type = "USBMODEM"; dev_speed = "HIGH" } else d

unfoldable pub set_device_info : Os → Props → CdcDevice → CdcDevice
unfolding serial_info modem_info
set_device_info os dev d =
    if str_eq (get_dev_type dev) "usb_device" || is_modem dev
    then record d {
      device =
          modem_info dev
            (serial_info dev (Devices.set_device_info os dev (set_speed dev d.device)));
    }
    else d

-- The text, unless it is empty.
abbrev or_old : String → String → String
or_old new old = if is_empty new then old else new

unfoldable pub update_device_info : Props → CdcDevice → CdcDevice
update_device_info dev d =
    if str_eq (get_subsystem_name dev) "net" && not (str_eq d.device.device_type "USBMODEM")
    then record d {
      device = record d.device {
        device_sub_type = or_old (get_usb_driver dev) d.device.device_sub_type;
      };
      if_index = or_old (get_net_if_index dev) d.if_index;
      link_mode = or_old (get_net_link_mode dev) d.link_mode;
      duplex = or_old (get_net_duplex dev) d.duplex;
      address = or_old (get_net_address dev) d.address;
      operstate = or_old (get_net_oper_state dev) d.operstate;
      is_toast_required = false;
    }
    else d

-- `objects` holds each device that was ever made, `deleted` the places that were deleted, newest
-- first.
pub record CdcHandler : Type 0 where
  pub objects : List CdcDevice
  pub deleted : List ℕ
  pub list : List ℕ
  pub is_dongle_supported : Bool
  pub device_removed : Bool
  pub trace : Trace

pub data DongleEvent : Type 0 where
  dongle_supported dongle_not_supported other_dongle : DongleEvent

unfoldable pub handle_plugin_event : DongleEvent → St CdcHandler Bool
handle_plugin_event dongle_supported h = (false, record h { is_dongle_supported = true })
handle_plugin_event dongle_not_supported h = (false, record h { is_dongle_supported = false })
handle_plugin_event other_dongle h = (false, h)

-- The object at a place.
unfoldable pub deref : List CdcDevice → ℕ → Option CdcDevice
deref [] n = none
deref (d ∷ ds) zero = some d
deref (d ∷ ds) (suc n) = deref ds n

unfoldable pub store : CdcDevice → List CdcDevice → ℕ → List CdcDevice
store d' [] n = []
store d' (d ∷ ds) zero = d' ∷ ds
store d' (d ∷ ds) (suc n) = d ∷ store d' ds n

abbrev pub passes : String → Option CdcDevice → Bool
passes path none = false
passes path (some d) = has_path (λ (e : CdcDevice). e.device) path d

-- getDeviceWithPath over the pointers.
unfoldable pub get_device : String → List CdcDevice → List ℕ → Option ℕ
get_device path objects [] = none
get_device path objects (i ∷ is) =
    if passes path (deref objects i) then some i else get_device path objects is

-- sList.remove: each entry of the pointer goes.
unfoldable pub remove_all : ℕ → List ℕ → List ℕ
remove_all i [] = []
remove_all i (j ∷ is) = let rest = remove_all i is in if i == j then rest else j ∷ rest

unfoldable pub remove_device : ℕ → CdcHandler → CdcHandler
remove_device i h = record h {
  list = remove_all i h.list;
  trace = (notify_observers cdc_device remove this_device h.trace).1;
  deleted = i ∷ h.deleted;
}

updated : Props → Option CdcDevice → ℕ → List CdcDevice → List CdcDevice
updated dev none i objects = objects
updated dev (some d) i objects = store (update_device_info dev d) objects i

module _ (os : Os) where
  -- A new device is pushed, and pushed again for a modem.
  new_path : Props → CdcHandler → CdcHandler
  new_path dev h =
      let i = length h.objects in
      let made = record h { objects = h.objects ++ set_device_info os dev new_cdc ∷ [] } in
      if is_modem dev
      then record made {
        list = (h.list ++ i ∷ []) ++ i ∷ [];
        trace = (notify_observers cdc_device add no_device h.trace).1;
      }
      else record made { list = h.list ++ i ∷ [] }

  add_path : Props → Option ℕ → CdcHandler → CdcHandler
  unfolding new_path updated
  add_path dev none h = new_path dev h
  add_path dev (some i) h = record h {
    list = h.list ++ i ∷ [];
    objects = updated dev (deref h.objects i) i h.objects;
    trace = (notify_observers cdc_device add this_device h.trace).1;
  }

  remove_path : Option ℕ → CdcHandler → CdcHandler
  remove_path none h = h
  remove_path (some i) h = record (remove_device i h) { device_removed = true }

  process_action : Option DeviceActions → Props → CdcHandler → CdcHandler
  unfolding add_path remove_path
  process_action (some dev_add) dev h =
      add_path dev (get_device (get_dev_path dev) h.objects h.list) h
  process_action (some dev_remove) dev h =
      remove_path (get_device (get_dev_path dev) h.objects h.list) h
  process_action _ dev h = h

  unfoldable pub process_cdc_device : Props → CdcHandler → CdcHandler
  unfolding process_action
  process_cdc_device dev = process_action (find_device_action (get_action dev)) dev

  unfoldable pub identify_cdc_device : Props → CdcHandler → Bool
  identify_cdc_device dev h =
      contains ":02" (get_interface_class dev)
      || (str_eq (get_usb_serial_id dev) "1"
          || (contains ":0206" (get_interface_class dev)
              || (is_modem dev && h.is_dongle_supported)))

  -- The second part of HandlerEvent.
  process_identified : Props → St CdcHandler Bool
  process_identified dev h =
      let processed = process_cdc_device dev h in
      if not (identify_cdc_device dev h)
      then (false, h)
      else if str_eq (get_dev_type dev) "usb_device"
      then (false, processed)
      else if str_eq (get_subsystem_name dev) "net" || str_eq (get_subsystem_name dev) "tty"
      then (true, processed)
      else (false, h)

  unfoldable pub handler_event : Props → St CdcHandler Bool
  unfolding process_identified
  handler_event dev h =
      let h' = process_cdc_device dev (record h { device_removed = false }) in
      if str_eq (get_action dev) "remove"
      then (if h'.device_removed then (true, h') else process_identified dev h')
      else process_identified dev h

  unfoldable pub handler_command : CommandType → St CdcHandler (Bool × Option Reply)
  handler_command c = pure (false, none)

delete_all : List ℕ → List ℕ → List ℕ
delete_all [] deleted = deleted
delete_all (i ∷ is) deleted = delete_all is (i ∷ deleted)

-- The destructor deletes each entry of the list.
unfoldable pub destroy : CdcHandler → CdcHandler
unfolding delete_all
destroy h = record h { deleted = delete_all h.list h.deleted; list = [] }
