-- ===== src/Examples/Devices.antt =====
-- The theorems on partitions and storage devices at concrete inputs.
use com_webos_service_pdm.Prelude.{false, ◌≡◌, refl, All, List, [], ◌∷◌, arith}
use com_webos_service_pdm.Errors.{success, format_fail}
use com_webos_service_pdm.Fs
use com_webos_service_pdm.Fs.{is_supported_file_system, format_fs, space_of}
use com_webos_service_pdm.Fs.Commands.{format_command}
use com_webos_service_pdm.Fs.Labels.{IsFormatOf, format_command-IsFormatOf}
use com_webos_service_pdm.Fs.Space.{IsSpaceOf, space_of-IsSpaceOf}
use com_webos_service_pdm.StorageDevice.State.{on_partitions, sweep}
use com_webos_service_pdm.StorageDevice.Mount.{
  umount_partition, umount_now, umount_idle, umount_all_partition,
}
use com_webos_service_pdm.StorageDevice.Mount.All.{
  IsUmountOf, umount_partition-IsUmountOf, umount_all_partition-success,
}
use com_webos_service_pdm.StorageDevice.Mount.Retry.{umount_partition_twice}
use com_webos_service_pdm.StorageDevice.Mount.Calls.{count, is_removal}
use com_webos_service_pdm.StorageDevice.Attach.{start_fsck}
use com_webos_service_pdm.StorageDevice.Attach.Threads.{before_loop, lower, test, move, run}
use com_webos_service_pdm.StorageDevice.Attach.Threads.Counts.{count_supported, loop_moves}
use com_webos_service_pdm.StorageDevice.Attach.Threads.Ready.{IsNotified, run_threads-IsNotified}
use com_webos_service_pdm.StorageDevice.Attach.Threads.Early.{
  early_moves, created, fsck_notification-early,
}
use com_webos_service_pdm.Partition.{DiskPartitionInfo}
use com_webos_service_pdm.StorageDevice.Info.Sd.{check_sd_card_add_remove}
use com_webos_service_pdm.StorageDevice.Info.Sd.Removal.{check_sd_card_add_remove-count}
use com_webos_service_pdm.StorageDevice.Commands.{eject, format_partition}
use com_webos_service_pdm.StorageDevice.Commands.Eject.{IsEjectOf, eject-IsEjectOf}
use com_webos_service_pdm.StorageDevice.Commands.Format.{
  IsBehindUmount, format_partition-IsBehindUmount,
}
use com_webos_service_pdm.Examples.{
  quiet, stuck, stick_partition, stick_slot, stick_dev, disk_event, small_fs,
}

umount_partition-IsUmountOf_example :
    let r = umount_partition quiet false stick_slot in IsUmountOf quiet false stick_slot r.0 r.1
umount_partition-IsUmountOf_example = umount_partition-IsUmountOf quiet false stick_slot

umount_all_partition-success_example :
    All (λ p. p.is_mounted ≡ false) (umount_all_partition quiet false stick_dev).1.partitions
unfolding umount_all_partition on_partitions sweep umount_partition umount_now umount_idle Fs.umount
    Fs.is_drive_busy
umount_all_partition-success_example = umount_all_partition-success quiet false stick_dev refl

umount_partition_twice_example :
    let first = umount_partition stuck false stick_slot in
    umount_partition stuck false first.1 ≡ (success, first.1)
unfolding umount_partition umount_now umount_idle Fs.umount Fs.is_drive_busy
umount_partition_twice_example = umount_partition_twice stuck false false stick_slot refl

eject-IsEjectOf_example : IsEjectOf stick_dev (eject quiet stick_dev).0 (eject quiet stick_dev).1
eject-IsEjectOf_example = eject-IsEjectOf quiet stick_dev

format_partition-IsBehindUmount_example :
    let r = format_partition stuck "sda1" "vfat" "MY MUSIC" stick_slot in
    IsBehindUmount stuck format_fail stick_slot r.0 r.1
format_partition-IsBehindUmount_example =
    format_partition-IsBehindUmount stuck "sda1" "vfat" "MY MUSIC" stick_slot

abbrev two_sticks : List DiskPartitionInfo
two_sticks = stick_partition ∷ stick_partition ∷ []

run_threads-IsNotified_example : IsNotified (start_fsck two_sticks stick_dev).1 2 (
    run
      (lower ∷ lower ∷ test ∷ test ∷ [])
      (run (loop_moves two_sticks) (before_loop two_sticks stick_dev)))
unfolding count_supported run move loop_moves
run_threads-IsNotified_example =
    run_threads-IsNotified two_sticks stick_dev 1 (lower ∷ lower ∷ test ∷ test ∷ []) refl refl refl
      refl

fsck_notification-early_example :
    run (early_moves two_sticks) (before_loop two_sticks stick_dev)
    ≡ record (before_loop [] (created two_sticks stick_dev)) { ended = count_supported two_sticks }
fsck_notification-early_example = fsck_notification-early two_sticks stick_dev refl

check_sd_card_add_remove-count_example :
    count is_removal (check_sd_card_add_remove quiet disk_event stick_dev).1.trace
    ≡ count is_removal stick_dev.trace
check_sd_card_add_remove-count_example = check_sd_card_add_remove-count quiet disk_event stick_dev

space_of-IsSpaceOf_example : IsSpaceOf small_fs (space_of small_fs)
space_of-IsSpaceOf_example = space_of-IsSpaceOf small_fs (omega arith) (omega arith)

format_command-IsFormatOf_example :
    IsFormatOf "sda1" "MY MUSIC" (format_command "sda1" "ntfs" "MY MUSIC")
unfolding is_supported_file_system
format_command-IsFormatOf_example =
    format_command-IsFormatOf "ntfs" "FLASH" "sda1" "MY MUSIC" refl refl
