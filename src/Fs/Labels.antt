-- ===== src/Fs/Labels.antt =====
-- Volume labels in the command lines of utils/DiskFormat.cpp and utils/PdmFs.cpp.
use com_webos_service_pdm.Prelude.{
  String, Bool, true, false, ◌≡◌, ◌||◌, refl, subst, sym, List, [], ◌∷◌, ◌++◌, Bool-cases, inl, inr,
  ◌⊎◌, str_eq, is_empty, str_eq_iff, is_nil, if◌then◌else◌, arith,
}
use com_webos_service_pdm.Utils.{split_args}
use com_webos_service_pdm.Fs.{is_supported_file_system, format_fs, set_default_fs_for_format}
use com_webos_service_pdm.Partition.{
  DiskPartitionInfo, storage_type_string, StorageInterfaceTypes, usb_stick, usb_hdd,
  usb_card_reader, usb_mtp, usb_ptp, emmc, usb_undefined,
}
use com_webos_service_pdm.Fs.Commands.{
  format_command, volume_label_command, fsck_command, get_fsck_mode, dev_path, find,
}

-- The words of a format command: the program and its options, the device, and the label as one
-- word behind its option.
pub record IsFormatOf (drive label : String) (words : List String) : Type 0 where
  pub program : List String
  pub option : String
  pub is_command : is_nil program ≡ false
  pub splits : words ≡ program ++ dev_path drive ∷ option ∷ label ∷ []

-- The words of a label command: a program, and the device and the label as one word each.
pub record IsLabelOf (drive label : String) (words : List String) : Type 0 where
  pub program : List String
  pub is_command : is_nil program ≡ false
  pub splits :
      (words ≡ program ++ dev_path drive ∷ label ∷ [])
      ⊎ (words ≡ program ++ label ∷ dev_path drive ∷ [])

some_passes :
    (x y a b c d e : Bool)
    → (if x then false else if y then false else a || (b || (c || (d || e)))) ≡ true
    → (a ≡ true) ⊎ ((b ≡ true) ⊎ ((c ≡ true) ⊎ ((d ≡ true) ⊎ (e ≡ true))))
some_passes x y a b c d e h = ground (arith, h)

-- The words of a check that runs under a time limit.
pub record IsTimedOf (drive : String) (words : List String) : Type 0 where
  pub program : List String
  pub is_command : is_nil program ≡ false
  pub splits : words ≡ "timeout" ∷ "20" ∷ program ++ dev_path drive ∷ []

-- To prove a property of all supported file systems, prove it of the five.
pub supported_cases {ℓ} :
    (P : String → Type ℓ) (fs kind : String)
    → is_supported_file_system fs kind ≡ true
    → P "vfat"
    → P "ntfs"
    → P "ext2"
    → P "ext3"
    → P "ext4"
    → P fs
unfolding is_supported_file_system
supported_cases P fs kind h vfat ntfs ext2 ext3 ext4 =
    elim (some_passes (is_empty fs) (str_eq kind "UNKNOWN" || str_eq kind "STREAMING")
      (str_eq fs "vfat") (str_eq fs "ntfs") (str_eq fs "ext2") (str_eq fs "ext3") (str_eq fs "ext4")
      h) [
        | inl e ↦ subst P (sym ((str_eq_iff fs "vfat").0 e)) vfat
        | inr (inl e) ↦ subst P (sym ((str_eq_iff fs "ntfs").0 e)) ntfs
        | inr (inr (inl e)) ↦ subst P (sym ((str_eq_iff fs "ext2").0 e)) ext2
        | inr (inr (inr (inl e))) ↦ subst P (sym ((str_eq_iff fs "ext3").0 e)) ext3
        | inr (inr (inr (inr e))) ↦ subst P (sym ((str_eq_iff fs "ext4").0 e)) ext4
      ]

-- For every supported file system, drive and label that is not empty there is a format command, and
-- the whole label, blanks included, is one word of it, the last.
pub format_command-IsFormatOf :
    (fs kind drive label : String)
    → is_supported_file_system fs kind ≡ true
    → is_empty label ≡ false
    → IsFormatOf drive label (format_command drive fs label)
unfolding format_command find split_args
format_command-IsFormatOf fs kind drive label h e =
    supported_cases (λ f. IsFormatOf drive label (format_command drive f label)) fs kind h
      (rw e (record {
        program = "mkfs.vfat" ∷ "-F" ∷ "32" ∷ [];
        option = "-n";
        is_command = refl;
        splits = refl;
      }))
      (rw e (record {
        program = "mkntfs" ∷ "-F" ∷ "-Q" ∷ [];
        option = "-L";
        is_command = refl;
        splits = refl;
      }))
      (rw e (record {
        program = "mkfs.ext2" ∷ "-F" ∷ [];
        option = "-L";
        is_command = refl;
        splits = refl;
      }))
      (rw e (record {
        program = "mkfs.ext3" ∷ "-F" ∷ [];
        option = "-L";
        is_command = refl;
        splits = refl;
      }))
      (rw e (record {
        program = "mkfs.ext4" ∷ "-F" ∷ [];
        option = "-L";
        is_command = refl;
        splits = refl;
      }))

-- For every supported file system there is a label command, and the whole label is one word of it.
volume_label_command-IsLabelOf :
    (fs kind drive label : String)
    → is_supported_file_system fs kind ≡ true
    → IsLabelOf drive label (volume_label_command fs drive label)
unfolding volume_label_command
volume_label_command-IsLabelOf fs kind drive label h =
    supported_cases (λ f. IsLabelOf drive label (volume_label_command f drive label)) fs kind h
      (record { program = "fatlabel" ∷ "-f" ∷ "-l" ∷ []; is_command = refl; splits = inr refl })
      (record { program = "ntfslabel" ∷ "-f" ∷ []; is_command = refl; splits = inl refl })
      (record { program = "e2label" ∷ []; is_command = refl; splits = inl refl })
      (record { program = "e2label" ∷ []; is_command = refl; splits = inl refl })
      (record { program = "e2label" ∷ []; is_command = refl; splits = inl refl })

abbrev IsFsckOf : String → String → Type 0
IsFsckOf drive f = IsTimedOf drive (fsck_command "auto" f drive)

-- For every supported file system, an automatic check has a command that ends with the device and
-- runs under a time limit of 20 seconds.
fsck_command-IsTimedOf :
    (fs kind drive : String)
    → is_supported_file_system fs kind ≡ true
    → IsTimedOf drive (fsck_command "auto" fs drive)
unfolding fsck_command find get_fsck_mode split_args
fsck_command-IsTimedOf fs kind drive h =
    supported_cases (IsFsckOf drive) fs kind h
      (record { program = "fsck.vfat" ∷ "-a" ∷ []; is_command = refl; splits = refl })
      (record { program = "ntfsck" ∷ "-p" ∷ []; is_command = refl; splits = refl })
      (record { program = "fsck.ext2" ∷ "-y" ∷ []; is_command = refl; splits = refl })
      (record { program = "fsck.ext3" ∷ "-y" ∷ []; is_command = refl; splits = refl })
      (record { program = "fsck.ext4" ∷ "-y" ∷ []; is_command = refl; splits = refl })

default_is_supported :
    (p : DiskPartitionInfo) (k : StorageInterfaceTypes)
    → p.storage_type ≡ k
    → str_eq (storage_type_string k) "UNKNOWN" ≡ false
    → str_eq (storage_type_string k) "STREAMING" ≡ false
    → is_supported_file_system (set_default_fs_for_format p) (storage_type_string k) ≡ true
unfolding set_default_fs_for_format is_supported_file_system
default_is_supported p usb_stick e u s = rw e refl
default_is_supported p usb_hdd e u s = rw e refl
default_is_supported p usb_card_reader e u s = rw e refl
default_is_supported p usb_mtp e u s = absurd (cc s)
default_is_supported p usb_ptp e u s = absurd (cc s)
default_is_supported p emmc e u s = rw e refl
default_is_supported p usb_undefined e u s = absurd (cc u)

-- The file system that a format uses is supported, whichever was asked for, where the storage type
-- of the partition is neither unknown nor streaming.
format_fs-is_supported :
    (p : DiskPartitionInfo) (fs : String)
    → str_eq (storage_type_string p.storage_type) "UNKNOWN" ≡ false
    → str_eq (storage_type_string p.storage_type) "STREAMING" ≡ false
    → is_supported_file_system (format_fs p fs) (storage_type_string p.storage_type) ≡ true
unfolding format_fs set_default_fs_for_format
format_fs-is_supported p fs u s =
    elim (Bool-cases (is_supported_file_system fs (storage_type_string p.storage_type))) [
      | inl e ↦ rw (e, e) refl
      | inr e ↦ rw e (default_is_supported p p.storage_type refl u s)
    ]
