-- ===== src/Fs/Drive.antt =====
-- The label of a drive, and whether it can be written, in utils/PdmFs.cpp.
use com_webos_service_pdm.Prelude.{
  String, Bool, false, not, ◌&&◌, ◌||◌, List, [], ◌∷◌, Option, none, some, ℤ, pos, ◌==ℤ◌, pure,
  branch, ◌>>=◌, ◌>>◌, str_eq, is_empty, is_nil,
}
use com_webos_service_pdm.Errors.{
  PdmDevStatus, success, set_volume_label_fail, volume_label_empty, unsupported_fs, busy,
}
use com_webos_service_pdm.Os.{Os, Call, Io, Mntent, run}
use com_webos_service_pdm.Partition.{set_volume_label_field, partition_lock, partition_unlock}
use com_webos_service_pdm.Fs.Commands.{volume_label_command, dev_path}
use com_webos_service_pdm.Fs.{On, get_part, modify, io, is_drive_busy}

module _ (os : Os) where
  abbrev relabel : String → ℤ → On PdmDevStatus
  relabel label ret =
      branch (ret ==ℤ pos 0)
        (do modify (set_volume_label_field label); modify partition_unlock; pure success)
        (do modify partition_unlock; pure set_volume_label_fail)

  unfoldable pub set_volume_label : String → On PdmDevStatus
  unfolding run
  set_volume_label label = do
    p ← get_part
    modify partition_lock
    let argv = volume_label_command p.fs_type p.drive_name label
    let refuse = λ (e : PdmDevStatus). (do modify partition_unlock; pure e)
    let ran = do ret ← io (run os argv); relabel label ret
    branch (is_empty label) (refuse volume_label_empty)
        (branch (is_nil argv) (refuse unsupported_fs) ran)

  -- The loop over /etc/mtab ends at the first entry of the device without "ro".
  writable_entry : String → List Mntent → Bool
  writable_entry dev [] = false
  writable_entry dev (m ∷ ms) = (str_eq dev m.mnt_fsname && not m.has_ro) || writable_entry dev ms

  abbrev any_writable : String → Option (List Mntent) → Bool
  any_writable dev none = false
  any_writable dev (some ms) = writable_entry dev ms

  read_mtab : String → Io (PdmDevStatus × Bool)
  unfolding writable_entry
  read_mtab dev t = ((success, any_writable dev (os.mtab t)), Call.read_mtab ∷ t)

  -- The status, and whether `isWritable` is set to true.
  unfoldable pub is_writable : On (PdmDevStatus × Bool)
  unfolding read_mtab is_drive_busy
  is_writable = do
    busy_now ← is_drive_busy os
    p ← get_part
    branch busy_now (pure (busy, false)) (io (read_mtab (dev_path p.drive_name)))
