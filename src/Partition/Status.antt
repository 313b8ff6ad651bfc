-- ===== src/Partition/Status.antt =====
-- The mounted flag of a partition and its drive status go together.
use com_webos_service_pdm.Prelude.{String, false, ◌≡◌, refl, str_eq}
use com_webos_service_pdm.Partition.{DiskPartitionInfo, new_partition, mount_ok, set_drive_status}

-- A partition counts as mounted exactly while its status is "MOUNT_OK ", and its lock is free
-- between two operations.
pub record IsConsistent (p : DiskPartitionInfo) : Type 0 where
  pub agrees : p.is_mounted ≡ str_eq p.drive_status mount_ok
  pub unlocked : p.locked ≡ false

pub new_partition-IsConsistent : (root : String) → IsConsistent (new_partition root)
unfolding new_partition
new_partition-IsConsistent root = record { agrees = refl; unlocked = refl }

pub set_drive_status-IsConsistent :
    (status : String) (p : DiskPartitionInfo)
    → IsConsistent p
    → IsConsistent (set_drive_status status p)
unfolding set_drive_status
set_drive_status-IsConsistent status p h = record { agrees = refl; unlocked = h.unlocked }
