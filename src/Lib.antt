-- ===== src/Lib.antt =====
-- A model of the physical device manager of webOS (com.webos.service.pdm): from the udev event of
-- a device to its device class, the handler that takes it, the storage device and its partitions,
-- and the system calls and programs that mount, check, format and unmount them; with media players
-- and cameras, the devices that are only listed, the queue of commands, and the alerts to
-- event-monitor.
--
-- How the parts interact. DeviceClassFactory turns the udev properties of an event into a device
-- class. DeviceManager asks its handlers about events, commands and power events. The storage
-- handler keeps a list of storage devices, each with its partitions, and passes events and
-- commands on to them. A storage device runs the file system operations on its partitions and
-- reports through a callback to its handler, which tells its observers; DeviceTracker passes that
-- on, and the notification manager writes alerts. The other handlers keep lists of devices in the
-- same way, and share the functions on lists of Devices. Commands reach the manager through the
-- queue.
--
-- Files, and the code that they model (paths from the root of the repository):
--   Prelude: shared names, integers over the native numbers, texts of bytes, functions on a state.
--   Utils: src/utils/PdmUtils.cpp (trimming, cutting, numbers, argument lists, running a child).
--   Errors: inc/private/PdmErrors.h and DeviceHandler::commandResponse.
--   DeviceClass: src/framework/DeviceClass.cpp, StorageSubsystem.cpp and SoundSubsystem.cpp (the
--     getters), with Factory for DeviceClassFactory.cpp, Factory/Subsystems for canProcessEvent of
--     each subsystem, and Card for getCardNumber.
--   Os: what the code asks of the system. Every call is recorded in a trace, newest first, and
--     answered by the record Os, whose answers may depend on all the calls before.
--   Partition: src/utils/DiskPartitionInfo.cpp and inc/private/Storage.h.
--   Fs: src/utils/PdmFs.cpp, DiskFormat.cpp and PdmFsck.cpp, one partition at a time; Commands
--     holds the command lines, and Drive the label and the test for a drive that can be written.
--   StorageDevice: src/devices/storage/StorageDevice.cpp and Device.cpp. State holds the members,
--     Mount the mounts and unmounts, Attach the partitions of a new device, Info setDeviceInfo,
--     Commands what the handler asks for, Power suspend and resume, and Removal the end of a
--     device.
--   StorageHandler: src/handlers/storage/StorageDeviceHandler.cpp and the lookups of
--     inc/private/DeviceHandler.h. Events, Requests and Power follow its three entry points, and
--     Reach puts them in any order.
--   Devices: src/devices/Device.cpp without what only storage devices use, and the lists of
--     devices; Numbers holds std::to_string, and Serve a handler through a sequence of requests.
--   Media: media players and cameras, behind inc/private/Storage.h. Mtp is
--     src/devices/mtp/MTPDevice.cpp with src/handlers/mtp/MTPDeviceHandler.cpp, and Ptp the same
--     of ptp; Within says which directories a trace touches, Kept what holds of one device,
--     Handled of the list of a handler.
--   Peripherals: Hid, Bluetooth, Gamepad, Nfc, Sound, Video and Cdc, each a device with its
--     handler (src/devices and src/handlers, the directories of these names).
--   CommandQueue: src/framework/CommandManager.cpp and inc/private/PdmThreadPool.h. A step is one
--     critical section; Spec is the queue that clients see, and Drain the loop of the only worker.
--   Netlink: src/framework/PdmNetlinkListener.cpp and PdmNetlinkClassAdapter.cpp. Lifecycle is
--     what the listener owns, and Events what its thread hands over to the queue of commands.
--   Notifications: src/framework/PdmNotificationManager.cpp, with the shared memory as a list of
--     bytes.
--   DeviceManager: src/framework/DeviceManager.cpp, over an interface of handlers.
--   DeviceTracker: src/framework/DeviceTracker.cpp.
--   Examples: the theorems at concrete inputs.
--
-- How code becomes definitions. A member function that changes an object is a function from the
-- state to a result and the next state (St); objects behind pointers in a list are changed in
-- place by at_name and at_device, which act on the first entry that passes a test. Integers are
-- bounded in PdmUtils::toInt (int), in the storage handler (size_t and int32_t) and in
-- calculateSpaceInfo (uint64_t); device numbers and counts, whose overflow the language leaves
-- undefined, are not. Loops are over lists and texts, and the wait for a child takes the number of
-- interruptions that the system answers. Two definitions run on fuel: the loop of a worker, for
-- which two turns for each task and two more are enough, and the digits of a number, for which the
-- number is enough. A device behind a pointer is a value in its handler's list, except in Cdc:
-- there the list can hold a pointer twice, so the objects stand in a store, and what is deleted is
-- kept.
--
-- Not modelled. The file system check of a new device is one operation, and so is the notification
-- behind it; the operations of the threads on their count, and those of the loop that starts them,
-- are moves that Attach/Threads puts in any order. Everywhere else the loop and each thread run to
-- their end, one after the other. A thread is known by the drive name of its partition. Logging,
-- the SMART report, allocation failure and the branches of WEBOS_SESSION builds are left out, as
-- are the Luna messages and their JSON, the toasts of PdmNotification.cpp, the set-up of the udev
-- monitor, the list of observers, and destructors other than those of the CDC handler and the
-- thread pool. The text that pbnjson makes of a payload, the size of a drive in GB and the process
-- of event-monitor are parameters, as are the answers of udev, epoll and eventfd.
mod Prelude
pub mod Utils
pub mod Errors
pub mod DeviceClass
pub mod Os
pub mod Partition
pub mod Fs
pub mod StorageDevice
pub mod StorageHandler
pub mod DeviceManager
pub mod DeviceTracker
mod Examples
pub mod Devices
pub mod Media
pub mod CommandQueue
pub mod Notifications
pub mod Peripherals
pub mod Netlink
