-- ===== src/StorageDevice/Info/Sd/Removal.antt =====
-- A card that is taken out of its reader.
use com_webos_service_pdm.Prelude.{String, ◌≡◌, refl, ◌∙◌, if_cases, ℤ, ◌==ℤ◌, pos, is_empty}
use com_webos_service_pdm.Os.{Os}
use com_webos_service_pdm.DeviceClass.{Props}
use com_webos_service_pdm.StorageDevice.State.{Dev}
use com_webos_service_pdm.StorageDevice.Mount.{delete_partition_data}
use com_webos_service_pdm.StorageDevice.Mount.Calls.{
  count, is_removal, is_removal-IsAside, delete_partition_data-count,
}
use com_webos_service_pdm.StorageDevice.Info.{count_partitions}
use com_webos_service_pdm.StorageDevice.Info.Sd.{
  card_gone, check_sd_card_add_remove, is_media_change, remove_mount_dirs,
}

count_partitions-count :
    (os : Os) (name : String) (d : Dev)
    → count is_removal (count_partitions os name d).1.trace ≡ count is_removal d.trace
unfolding count_partitions count
count_partitions-count os name d =
    if_cases (λ (r : ℤ × Dev). count is_removal r.1.trace ≡ count is_removal d.trace)
      (is_empty name) (λ _. refl) (λ _. refl)

-- The list is emptied before the loop over it that should remove the mount directories.
card_gone-count :
    (os : Os) (d : Dev) → count is_removal (card_gone os d).1.trace ≡ count is_removal d.trace
unfolding card_gone remove_mount_dirs count delete_partition_data
card_gone-count os d = delete_partition_data-count is_removal is_removal-IsAside os d

-- The check for a card that was taken out removes no directory, whatever the device and the event
-- are.
pub check_sd_card_add_remove-count :
    (os : Os) (dev : Props) (d : Dev)
    → count is_removal (check_sd_card_add_remove os dev d).1.trace ≡ count is_removal d.trace
unfolding check_sd_card_add_remove
check_sd_card_add_remove-count os dev d =
    let r = count_partitions os d.device_name d in
    if_cases P (is_media_change os dev d.device)
      (λ _.
        if_cases P (r.0 ==ℤ pos 0)
          (λ _. card_gone-count os r.1 ∙ count_partitions-count os d.device_name d)
          (λ _. count_partitions-count os d.device_name d))
      (λ _. refl)
  where
    P : Unit {0} × Dev → Type 0
    P s = count is_removal s.1.trace ≡ count is_removal d.trace
