-- ===== src/Os.antt =====
-- What the storage code asks of the system: each call is recorded in a trace, newest first, and
-- answered by `Os`, whose answers may depend on all the calls before. The callbacks to the handler
-- (m_storageDeviceHandlerCb) and the notifications to the observers stand in the same trace.
use com_webos_service_pdm.Prelude.{
  ℕ, String, Bool, true, false, List, ◌∷◌, Option, none, some, ℤ, St, is_empty, if◌then◌else◌,
}
use com_webos_service_pdm.Utils.{Child, run_command}

-- inc/public/Plugin-Api.h
pub data EventType : Type 0 where
  unknown add remove change mount umount mountall unmountall connecting : EventType
  remove_before_mount max_count_reached unsupported_fs_format_needed : EventType
  fsck_started fsck_timed_out fsck_finished format_started format_success format_fail : EventType
  remove_unsupported_fs umountall_success umountall_fail : EventType

-- The device that an event carries: none, the storage device, or one of its partitions.
pub data Target : Type 0 where
  no_device this_device : Target
  partition : String → Target

-- DeviceEventType of inc/private/Common.h
pub data DeviceEventType : Type 0 where
  storage_device non_storage_device all_device sound_device hid_device : DeviceEventType
  video_device gamepad_device mtp_device ptp_device bluetooth_device : DeviceEventType
  cdc_device nfc_device unknown_device : DeviceEventType

pub data Call : Type 0 where
  shell : String → Call
  command : List String → Call
  create_directories remove_all statfs : String → Call
  mount : String → String → String → ℕ → String → Call
  umount2 : String → ℕ → Call
  read_mtab : Call
  callback : EventType → Target → Call
  fsck_thread : String → Call
  timeout_add source_remove : ℕ → Call
  observers : DeviceEventType → EventType → Target → Call

abbrev pub Trace : Type 0
Trace = List Call

-- struct statfs, the members that are read.
pub record Statfs : Type 0 where
  pub f_bsize : ℕ
  pub f_blocks : ℕ
  pub f_bavail : ℕ

-- An entry of /etc/mtab: the device, and whether it has the option "ro".
pub record Mntent : Type 0 where
  pub mnt_fsname : String
  pub has_ro : Bool

-- `mount` and `umount2` answer 0 or an errno, `statfs`, `mtab` and `read_dir` (the entries of a
-- directory) none where they fail, and the other directory functions none where they throw. `root_path` and `power_state` are what PdmConfig
-- and PluginAdapter say.
pub record Os : Type 0 where
  pub child : Trace → List String → Child
  pub shell : Trace → String → String
  pub is_directory : Trace → String → Bool
  pub create_directories : Trace → String → Option Bool
  pub remove_all : Trace → String → Option Bool
  pub mount : Trace → String → String → String → ℕ → String → ℕ
  pub umount2 : Trace → String → ℕ → ℕ
  pub statfs : Trace → String → Option Statfs
  pub mtab : Trace → Option (List Mntent)
  pub read_dir : Trace → String → Option (List String)
  pub timeout_add : Trace → ℕ
  pub root_path : String
  pub power_state : Bool

abbrev pub Io : Type 0 → Type 0
Io A = St Trace A

abbrev pub or_false : Option Bool → Bool
or_false none = false
or_false (some b) = b

-- DeviceStateObserver::Notify, to the observers of the handler.
abbrev pub notify_observers : DeviceEventType → EventType → Target → Io (Unit {0})
notify_observers k e d t = (tt, Call.observers k e d ∷ t)

abbrev pub notify : EventType → Target → Io (Unit {0})
notify e d t = (tt, Call.callback e d ∷ t)

module _ (os : Os) where
  -- PdmUtils::execShellCmd
  unfoldable pub exec_shell_cmd : String → Io String
  exec_shell_cmd cmd t = (os.shell t cmd, Call.shell cmd ∷ t)

  -- PdmUtils::runCommand; a child is forked only for a command with a name.
  unfoldable pub run : List String → Io ℤ
  run argv t = (run_command (os.child t) argv, Call.command argv ∷ t)

  -- PdmUtils::createDir
  unfoldable pub create_dir : String → Io Bool
  create_dir dir t =
      if is_empty dir
      then (false, t)
      else if os.is_directory t dir
      then (true, t)
      else (or_false (os.create_directories t dir), Call.create_directories dir ∷ t)

  -- PdmUtils::removeDirRecursive
  unfoldable pub remove_dir_recursive : String → Io Bool
  remove_dir_recursive dir t =
      if is_empty dir then (false, t) else (or_false (os.remove_all t dir), Call.remove_all dir ∷ t)
