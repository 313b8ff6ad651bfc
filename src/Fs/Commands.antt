-- ===== src/Fs/Commands.antt =====
-- The command lines of utils/PdmFs.cpp (volumeLabelCommand), utils/DiskFormat.cpp (formatCommand)
-- and utils/PdmFsck.cpp (fsckCommand), each a list of argv words.
use com_webos_service_pdm.Prelude.{
  String, not, ◌&&◌, ◌||◌, List, [], ◌∷◌, ◌++◌, Option, none, some, append, str_eq, is_empty,
  if◌then◌else◌,
}
use com_webos_service_pdm.Utils.{split_args}

-- A table keyed by texts.
abbrev pub Table : Type 0 → Type 0
Table V = List (String × V)

unfoldable pub find {ℓ} : {V : Type ℓ} → String → List (String × V) → Option V
find k [] = none
find k ((j, v) ∷ t) = if str_eq j k then some v else find k t

abbrev pub dev_path : String → String
dev_path drive_name = append "/dev/" drive_name

unfoldable pub volume_label_command : String → String → String → List String
volume_label_command fs drive label =
    if str_eq fs "tntfs" || str_eq fs "ntfs"
    then "ntfslabel" ∷ "-f" ∷ dev_path drive ∷ label ∷ []
    else if str_eq fs "vfat" || str_eq fs "tfat"
    then "fatlabel" ∷ "-f" ∷ "-l" ∷ label ∷ dev_path drive ∷ []
    else if str_eq fs "ext2" || (str_eq fs "ext3" || str_eq fs "ext4")
    then "e2label" ∷ dev_path drive ∷ label ∷ []
    else []

abbrev pub volume_label_options : Table String
volume_label_options =
    ("nofs", "")
    ∷ ("ntfs", " -L ")
    ∷ ("vfat", " -n ")
    ∷ ("jfs", " -L ")
    ∷ ("ext2", " -L ")
    ∷ ("ext3", " -L ")
    ∷ ("ext4", " -L ")
    ∷ []

abbrev pub format_fs_commands : Table String
format_fs_commands =
    ("nofs", "")
    ∷ ("ntfs", "mkntfs -F -Q ")
    ∷ ("vfat", "mkfs.vfat -F 32 ")
    ∷ ("jfs", "jfs_mkfs -q -z 0x00000000 ")
    ∷ ("ext2", "mkfs.ext2 -F ")
    ∷ ("ext3", "mkfs.ext3 -F ")
    ∷ ("ext4", "mkfs.ext4 -F ")
    ∷ []

abbrev pub option_words : Option String → List String
option_words none = []
option_words (some o) = split_args o

abbrev pub label_words : String → String → List String
label_words fs label =
    if is_empty label then [] else option_words (find fs volume_label_options) ++ label ∷ []

-- The words of a table entry, with the rest behind them unless there are none.
abbrev pub behind : List String → List String → List String
behind [] rest = []
behind (w ∷ ws) rest = (w ∷ ws) ++ rest

abbrev pub format_words : Option String → String → String → String → List String
format_words none drive fs label = []
format_words (some cmd) drive fs label =
    behind (split_args cmd) (dev_path drive ∷ label_words fs label)

unfoldable pub format_command : String → String → String → List String
format_command drive fs label = format_words (find fs format_fs_commands) drive fs label

-- fsckDriveTypeBinOptionMap
abbrev pub fsck_table : Table (String × String)
fsck_table =
    ("nofs", ("", ""))
    ∷ ("ntfs", ("ntfsck", "-p"))
    ∷ ("tntfs", ("ntfsck", "-p"))
    ∷ ("vfat", ("fsck.vfat", "-a"))
    ∷ ("tfat", ("fsck.fat", ""))
    ∷ ("jfs", ("jfs_fsck", "-Q -z 0x00000000"))
    ∷ ("ext2", ("fsck.ext2", ""))
    ∷ ("ext3", ("fsck.ext3", ""))
    ∷ ("ext4", ("fsck.ext4", ""))
    ∷ ("ptp_fuse", ("", ""))
    ∷ ("mtp_fuse", ("", ""))
    ∷ ("exfat", ("", ""))
    ∷ ("err", ("", ""))
    ∷ []

unfoldable pub get_fsck_mode : String → String → String
get_fsck_mode drive_type mode =
    if is_empty drive_type
    then ""
    else if str_eq drive_type "tntfs"
    then (if is_empty mode
        then "-C"
        else if str_eq mode "auto"
        then "-C -at 20"
        else if str_eq mode "force"
        then "-C"
        else "-C")
    else if str_eq drive_type "tfat"
    then (if str_eq mode "auto" then "-a -t 20" else "")
    else if str_eq drive_type "jfs"
    then (if is_empty mode
        then "-a"
        else if str_eq mode "auto"
        then "-a"
        else if str_eq mode "force"
        then "-f --omit_journal_replay"
        else "-a")
    else if str_eq drive_type "ext2" || (str_eq drive_type "ext3" || str_eq drive_type "ext4")
    then (if is_empty mode
        then "-y"
        else if str_eq mode "auto"
        then "-y"
        else if str_eq mode "force"
        then "-yf"
        else "-y")
    else ""

abbrev pub fsck_words : Option (String × String) → String → String → String → List String
fsck_words none mode drive_type partition = []
fsck_words (some (bin, option)) mode drive_type partition =
    if is_empty bin
    then []
    else (if str_eq mode "auto"
          && (not (str_eq drive_type "tntfs") && not (str_eq drive_type "tfat"))
        then split_args "timeout 20 "
        else [])
      ++ (bin ∷ split_args (get_fsck_mode drive_type mode)
          ++ (split_args option ++ dev_path partition ∷ []))

unfoldable pub fsck_command : String → String → String → List String
unfolding get_fsck_mode
fsck_command mode drive_type partition =
    fsck_words (find drive_type fsck_table) mode drive_type partition
