-- ===== src/Fs/Mounts.antt =====
-- What mountPartition of utils/PdmFs.cpp does to the partition.
use com_webos_service_pdm.Prelude.{ℕ, ◌==◌, Bool, ◌≡◌, refl, Option, none, if_cases}
use com_webos_service_pdm.Os.{Os}
use com_webos_service_pdm.Partition.{DiskPartitionInfo}
use com_webos_service_pdm.Fs.{
  Slot, mount_partition, after_mount, put_space, SpaceInfo, calculate_space_info, space_info,
}

-- A mount leaves the partition but for the sizes it read.
pub record IsMounted (old : DiskPartitionInfo) (new : DiskPartitionInfo) : Type 0 where
  pub space : Option SpaceInfo
  pub rest : new ≡ put_space space old

after_mount-IsMounted :
    (os : Os) (ret : ℕ) (s : Slot) → IsMounted s.part (after_mount os ret s).1.part
unfolding after_mount calculate_space_info
after_mount-IsMounted os ret s =
    if_cases (λ (r : Bool × Slot). IsMounted s.part r.1.part) (ret == 0)
      (λ e. record { space = space_info (os.statfs s.trace s.part.mount_name); rest = refl })
      (λ e. record { space = none; rest = refl })

pub mount_partition-IsMounted :
    (os : Os) (read_only : Bool) (s : Slot)
    → IsMounted s.part (mount_partition os read_only s).1.part
unfolding mount_partition
mount_partition-IsMounted os read_only s =
    if_cases (λ (r : Bool × Slot). IsMounted s.part r.1.part)
      (os.is_directory s.trace s.part.mount_name) (λ e. after_mount-IsMounted os _ _)
      (λ e. record { space = none; rest = refl })
