-- ===== src/StorageHandler/Requests/Unnamed.antt =====
-- A request that meets a device whose disk has not been announced yet.
use text.Mathlib.TextLemmas.{nil-append}
use com_webos_service_pdm.Prelude.{
  String, Bool, true, ◌≡◌, refl, ap, List, [], ◌∷◌, some, none, is_empty, starts_with,
  starts_with-append, if_cases, ℕ, subst, ◌∙◌,
}
use com_webos_service_pdm.Errors.{partition_not_found, drive_not_found}
use com_webos_service_pdm.Os.{Os, Trace}
use com_webos_service_pdm.StorageDevice.State.{StorageDevice, Dev, OnDev, find_partition, find_name}
use com_webos_service_pdm.StorageDevice.Commands.{format_disk_start, with_partition}
use com_webos_service_pdm.StorageHandler.State.{
  Handler, get_device, has_name, on_device, at_device, put_device,
}
use com_webos_service_pdm.StorageHandler.Requests.{
  format, handler_command, format_request, on_named, reply_of,
}

-- A device without a name and without partitions.
pub record IsUnnamed (d : StorageDevice) : Type 0 where
  pub no_name : d.device_name ≡ ""
  pub no_partition : d.partitions ≡ []

starts_with-empty : (s : String) → starts_with s "" ≡ true
starts_with-empty s = subst (λ t. starts_with t "" ≡ true) (nil-append s) (starts_with-append "" s)

has_name-unnamed : (name : String) (d : StorageDevice) → IsUnnamed d → has_name name d ≡ true
has_name-unnamed name d u = rw u.no_name (starts_with-empty name)

find_partition-nil : (name : String) → find_partition name [] ≡ none
unfolding find_partition find_name
find_partition-nil name = if_cases (λ o. o ≡ none) (is_empty name) (λ _. refl) (λ _. refl)

format_disk_start-nil :
    (os : Os) (name fs label : String) (d : Dev)
    → d.partitions ≡ []
    → format_disk_start os name fs label d ≡ (partition_not_found, d)
unfolding format_disk_start
format_disk_start-nil os name fs label d e =
    let missing : find_partition name d.partitions ≡ none =
      ap (find_partition name) e ∙ find_partition-nil name in
    rw (missing, format_disk_start, with_partition) refl

get_device-head :
    (test : StorageDevice → Bool) (d : StorageDevice) (ds : List StorageDevice)
    → test d ≡ true
    → get_device test (d ∷ ds) ≡ some d
unfolding get_device
get_device-head test d ds e = rw e refl

at_device-head :
    {A : Type 0} (default : A) (test : StorageDevice → Bool) (m : OnDev A) (d : StorageDevice)
    (ds : List StorageDevice) (t : Trace)
    → test d ≡ true
    → at_device default test m (d ∷ ds) t ≡ put_device (m (record { device = d; trace = t })) ds
unfolding at_device
at_device-head default test m d ds t e = rw e refl

-- While the first device of the list has no name and no partitions, as a USB device has before its
-- disk is announced, every format of any drive is taken with the error that there is no such
-- partition, and the other devices are never asked.
pub format_request-unnamed :
    (os : Os) (drive fs label : String) (d : StorageDevice) (ds : List StorageDevice) (limit : ℕ)
    (thread : Bool) (t : Trace)
    → IsUnnamed d
    → let h : Handler = record {
      state = record { max_storage_devices = limit; space_thread = thread; storage_list = d ∷ ds };
      trace = t;
    } in
      handler_command os (format drive fs label) h
      ≡ ((true, some (reply_of partition_not_found)), h)
unfolding handler_command format_request on_device
format_request-unnamed os drive fs label d ds limit thread t u =
    rw
      (
        get_device-head (has_name drive) d ds (has_name-unnamed drive d u),
        handler_command,
        format_request,
        on_named,
      )
      (rw
        (
          at_device-head drive_not_found (has_name drive) (format_disk_start os drive fs label) d ds
              t (has_name-unnamed drive d u),
          format_disk_start-nil os drive fs label (record { device = d; trace = t }) u.no_partition,
        )
        refl)
