-- ===== src/Fs.antt =====
-- utils/PdmFs.cpp, with formatDrive of utils/DiskFormat.cpp and fsck of utils/PdmFsck.cpp: what is
-- done to one partition. An action reads and writes the partition and the trace.
pub mod Commands
pub mod Space
pub mod Labels
pub mod Mounts
pub mod Drive
use Prim.Native.Nat.{bit_or}
use com_webos_service_pdm.Prelude.{
  ℕ, ◌+◌, ◌-◌, ◌*◌, ◌/◌, ◌%◌, ◌^◌, ◌==◌, ltb, String, Bool, true, false, not, ◌&&◌, ◌||◌, List, [],
  ◌∷◌, Option, none, some, ℤ, pos, ◌==ℤ◌, St, pure, branch, ◌>>=◌, ◌>>◌, append, str_eq, is_empty,
  is_nil, if◌then◌else◌,
}
use com_webos_service_pdm.Errors.{
  PdmDevStatus, success, format_fail, fsck_fail, fsck_timeout, set_volume_label_fail,
  volume_label_empty, unsupported_fs, busy, status_code, is_success,
}
use com_webos_service_pdm.Os.{Os, Call, Trace, Io, Statfs, Mntent, exec_shell_cmd, run, create_dir}
use com_webos_service_pdm.Partition.{
  DiskPartitionInfo, StorageInterfaceTypes, storage_type_string, partition_fsck_started, need_fsck,
  set_drive_status, set_fs_type, set_volume_label_field, partition_lock, partition_unlock,
}
use Commands.{volume_label_command, format_command, fsck_command, dev_path, Table, find}

pub record Slot : Type 0 where
  pub part : DiskPartitionInfo
  pub trace : Trace

abbrev pub On : Type 0 → Type 0
On A = St Slot A

abbrev pub get_part : On DiskPartitionInfo
get_part s = (s.part, s)

abbrev pub modify : (DiskPartitionInfo → DiskPartitionInfo) → On (Unit {0})
modify f s = (tt, record s { part = f s.part })

abbrev pub io {ℓ} : {A : Type ℓ} → St Trace A → St Slot A
io m s = let (a, t) = m s.trace in (a, record s { trace = t })

abbrev pub mount_data : Table String
mount_data =
    ("nofs", "")
    ∷ ("ntfs", "uid=0,gid=5000,umask=0002")
    ∷ ("tntfs", "nls=utf8,max_prealloc_size=64m,uid=0,gid=5000,umask=0002")
    ∷ ("vfat", "shortname=mixed,uid=0,gid=5000,umask=0002")
    ∷ ("tfat", "iocharset=utf8,fastmount=1,max_prealloc_size=32m,uid=0,gid=5000,umask=0002")
    ∷ ("jfs", "")
    ∷ ("ext2", "")
    ∷ ("ext3", "data=journal")
    ∷ ("ext4", "")
    ∷ ("err", "")
    ∷ []

-- mountData[fsType]: a missing key gives the empty text.
abbrev pub or_blank : Option String → String
or_blank none = ""
or_blank (some v) = v

unfoldable pub is_supported_file_system : String → String → Bool
is_supported_file_system fs storage_type =
    if is_empty fs
    then false
    else if str_eq storage_type "UNKNOWN" || str_eq storage_type "STREAMING"
    then false
    else str_eq fs "vfat"
      || (str_eq fs "ntfs" || (str_eq fs "ext2" || (str_eq fs "ext3" || str_eq fs "ext4")))

-- The file system that replaces an unsupported one.
unfoldable pub set_default_fs_for_format : DiskPartitionInfo → String
set_default_fs_for_format p =
    let kind = storage_type_string p.storage_type in
    if str_eq kind "FLASH"
    then "vfat"
    else if str_eq kind "HDD"
    then "ntfs"
    else if str_eq kind "EMMC"
    then "ext4"
    else if is_empty p.fs_type
    then "vfat"
    else p.fs_type

unfoldable pub format_fs : DiskPartitionInfo → String → String
unfolding is_supported_file_system set_default_fs_for_format
format_fs p fs =
    if is_supported_file_system fs (storage_type_string p.storage_type)
    then fs
    else set_default_fs_for_format p

-- MS_MGC_VAL, MS_NOATIME | MS_NODIRATIME, MS_RELATIME and MS_RDONLY of sys/mount.h.
unfoldable pub mount_flags : String → Bool → ℕ
mount_flags fs read_only =
    let flag =
      if str_eq fs "ext3" || (str_eq fs "ext4" || str_eq fs "jfs")
      then bit_or 0xC0ED0000 (bit_or 1024 2048)
      else if str_eq fs "vfat"
      then bit_or 0xC0ED0000 2097152
      else 0xC0ED0000 in
    if read_only then bit_or flag 1 else flag

pub record SpaceInfo : Type 0 where
  pub drive_size : ℕ
  pub used_size : ℕ
  pub free_size : ℕ
  pub used_rate : ℕ

-- The sums of calculateSpaceInfo, in uint64_t, from a SpaceInfo of zeros.
unfoldable pub space_of : Statfs → SpaceInfo
space_of f =
    let drive = f.f_blocks * f.f_bsize % 2 ^ 64 / 1024 in
    let free = f.f_bavail * f.f_bsize % 2 ^ 64 / 1024 in
    let used = if ltb free drive then drive - free else 0 in
    record {
      drive_size = drive;
      free_size = free;
      used_size = used;
      used_rate = if drive == 0 then 0 else used * 100 % 2 ^ 64 / drive;
    }

abbrev pub set_space : SpaceInfo → DiskPartitionInfo → DiskPartitionInfo
set_space i p = record p {
  drive_size = i.drive_size;
  used_size = i.used_size;
  free_size = i.free_size;
  used_rate = i.used_rate;
}

abbrev pub space_info : Option Statfs → Option SpaceInfo
space_info none = none
space_info (some f) = some (space_of f)

abbrev pub put_space : Option SpaceInfo → DiskPartitionInfo → DiskPartitionInfo
put_space none p = p
put_space (some i) p = set_space i p

module _ (os : Os) where
  -- `none` where statfs fails.
  unfoldable pub calculate_space_info : String → Io (Option SpaceInfo)
  calculate_space_info dir t = (space_info (os.statfs t dir), Call.statfs dir ∷ t)

  sys_mount : String → String → String → ℕ → String → Io ℕ
  sys_mount dev dir fs flags options t =
      (os.mount t dev dir fs flags options, Call.mount dev dir fs flags options ∷ t)

  -- The mount, and a second one that is read-only where the first fails with EACCES or EROFS.
  mount_retry : String → String → String → Bool → Io ℕ
  unfolding sys_mount
  mount_retry dev dir fs read_only = do
    let options = or_blank (find fs mount_data)
    let flags = mount_flags fs read_only
    ret ← sys_mount dev dir fs flags options
    branch (ret == 13 || ret == 30) (sys_mount dev dir fs (bit_or flags 1) options) (pure ret)

  -- What follows the mounts: the sizes are read where the last one succeeded.
  after_mount : ℕ → On Bool
  unfolding calculate_space_info
  after_mount ret s =
      if ret == 0
      then (let (space, t) = calculate_space_info s.part.mount_name s.trace in
          (true, record { part = put_space space s.part; trace = t }))
      else (false, s)

  unfoldable pub mount_partition : Bool → On Bool
  unfolding mount_retry after_mount
  mount_partition read_only s =
      let p = s.part in
      let mounted = (do
        ret ← io (mount_retry (dev_path p.drive_name) p.mount_name p.fs_type read_only)
        after_mount ret) in
      if os.is_directory s.trace p.mount_name then mounted s else (false, s)

  -- MNT_FORCE is 1 and MNT_DETACH is 2.
  unfoldable pub umount : Bool → On Bool
  umount lazy s =
      let flags = if lazy then bit_or 1 2 else 1 in
      (
        os.umount2 s.trace s.part.mount_name flags == 0,
        record s { trace = Call.umount2 s.part.mount_name flags ∷ s.trace },
      )

  unfoldable pub is_drive_busy : On Bool
  unfolding exec_shell_cmd
  is_drive_busy = do
    p ← get_part
    result ← io (exec_shell_cmd os (append "lsof +D " p.mount_name))
    pure (not (is_empty result))

  unfoldable pub check_file_system : On (Unit {0})
  unfolding create_dir is_supported_file_system
  check_file_system = do
    modify λ p. record p {
      is_supported_fs = is_supported_file_system p.fs_type (storage_type_string p.storage_type);
    }
    p ← get_part
    created ← io (create_dir os p.mount_name)
    pure tt

  abbrev format_status : List String → ℤ → PdmDevStatus
  format_status argv ret = if ret ==ℤ pos 0 then success else format_fail

  unfoldable pub format_drive : String → String → String → Io PdmDevStatus
  unfolding run
  format_drive drive fs label = do
    let argv = format_command drive fs label
    let ran = do ret ← run os argv; pure (format_status argv ret)
    branch (is_nil argv) (pure unsupported_fs) ran

  unfoldable pub format : String → String → On PdmDevStatus
  unfolding format_drive format_fs
  format fs label = do
    p ← get_part
    let fs' = format_fs p fs
    result ← io (format_drive p.drive_name fs' label)
    modify (λ q. if is_success result then set_volume_label_field label (set_fs_type fs' q) else q)
    pure result

  abbrev pub fsck_result : ℤ → PdmDevStatus
  fsck_result ret =
      if ret ==ℤ pos 1 || ret ==ℤ pos 2
      then fsck_fail
      else if ret ==ℤ pos 124
      then fsck_timeout
      else success

  -- PdmFsck::fsck
  unfoldable pub fsck_drive : String → String → String → Io PdmDevStatus
  unfolding run
  fsck_drive mode drive_type partition = do
    let argv = fsck_command mode drive_type partition
    let ran = do ret ← run os argv; pure (fsck_result ret)
    branch (is_nil argv) (pure fsck_fail) ran

  abbrev is_timeout : PdmDevStatus → Bool
  is_timeout fsck_timeout = true
  is_timeout _ = false

  -- PdmFs::fsck
  unfoldable pub fsck : String → On PdmDevStatus
  unfolding fsck_drive
  fsck mode = do
    modify λ p. record p { fsck_status = partition_fsck_started }
    p ← get_part
    status ← io (fsck_drive mode p.fs_type p.drive_name)
    modify λ q. record q { fsck_status = status_code status }
    modify λ q. if is_timeout status then set_drive_status need_fsck q else q
    pure status
