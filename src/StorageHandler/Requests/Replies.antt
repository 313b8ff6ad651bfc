-- ===== src/StorageHandler/Requests/Replies.antt =====
-- Which commands the storage handler takes, what it replies, and what a command leaves.
use com_webos_service_pdm.Prelude.{
  String, Bool, true, false, ◌≡◌, refl, ◌∙◌, ap, Option, none, some, Bool-cases, inl, inr, ℤ,
  if◌then◌else◌, is_nil, Option-cases,
}
use com_webos_service_pdm.Errors.{
  PdmDevStatus, success, error, device_not_found, drive_not_mounted, is_success, status_code,
  error_text, CommandResponse, command_response,
}
use com_webos_service_pdm.Os.{Os, Trace}
use com_webos_service_pdm.Partition.{DiskPartitionInfo}
use com_webos_service_pdm.StorageDevice.State.{StorageDevice, OnDev}
use com_webos_service_pdm.StorageDevice.Commands
use com_webos_service_pdm.StorageHandler.State.{
  Handler, get_device, has_name, has_num, on_device, on_devices,
}
use com_webos_service_pdm.StorageHandler.State.Lookup.{sweep_devices-length, at_device-result}
use com_webos_service_pdm.StorageHandler.Events.Bound.{Keeps, on_device-Keeps, Keeps-refl}
use com_webos_service_pdm.StorageHandler.Requests.{
  CommandType, format, eject, fsck, set_volume_label, umount_all_drive, is_writable_drive,
  mount_fsck, space_info, io_performance, no_command, Reply, remove_blanks, space_reply, on_named,
  format_request, eject_request, eject_found, fsck_request, umount_all_request, umount_devices,
  umount_device, set_volume_label_request, is_writable_request, mount_fsck_request,
  get_space_info_request, handler_command,
}

-- The reply of a status: `returnValue` is true for success and false for any other status, and a
-- failure has the code and the text of the status, a success none.
pub record IsReplyOf (status : PdmDevStatus) (r : Reply) : Type 0 where
  pub value : r.response.return_value ≡ is_success status
  pub info :
      r.response.error_info
      ≡ (if is_success status then none else some (status_code status, error_text status))

abbrev pub Explains : PdmDevStatus → Option Reply → Type 0
Explains status none = ⊥
Explains status (some r) = IsReplyOf status r

-- What a command comes to, by what its operation on the device answers: `none` for a refusal, and
-- the status of the operation for a command that is taken.
abbrev pub Outcome : Option PdmDevStatus → Handler → Bool → Option Reply → Handler → Type 0
Outcome none old taken reply new = (taken ≡ false) × (new ≡ old)
Outcome (some status) old taken reply new = (taken ≡ true) × Explains status reply

-- What a command leaves: `old` is the handler before it, `new` the one after it.
pub record IsAnswer (status : Option PdmDevStatus) (old : Handler) (taken : Bool)
    (reply : Option Reply) (new : Handler) : Type 0 where
  pub outcome : Outcome status old taken reply new
  pub keeps : Keeps old new

abbrev pub Answers : Option PdmDevStatus → Handler → (Bool × Option Reply) × Handler → Type 0
Answers status h ((taken, reply), h') = IsAnswer status h taken reply h'

-- The status of an operation on a device that was looked for.
abbrev asked : Option StorageDevice → OnDev PdmDevStatus → Handler → Option PdmDevStatus
asked none m h = none
asked (some d) m h = some (m (record { device = d; trace = h.trace })).0

abbrev named : String → OnDev PdmDevStatus → Handler → Option PdmDevStatus
named name m h = asked (get_device (has_name name) h.storage_list) m h

abbrev writable_status : Os → String → OnDev PdmDevStatus
writable_status os drive d = let (r, d') = Commands.is_writable os drive d in (r.0, d')

abbrev mounted_status : Option DiskPartitionInfo → PdmDevStatus
mounted_status none = drive_not_mounted
mounted_status (some p) = if p.is_mounted then success else drive_not_mounted

abbrev space_status : Os → Bool → String → OnDev PdmDevStatus
space_status os direct drive d =
    let (p, d') = Commands.get_space_info os drive direct d in (mounted_status p, d')

-- The operation of each command, on the first device that the lookup finds; `none` where it finds
-- none, where there is no device at all, or where the command is none of the handler's.
pub status_of : Os → CommandType → Handler → Option PdmDevStatus
status_of os (format drive fs label) h =
    named drive (Commands.format_disk_start os drive fs label) h
status_of os (eject num) h = asked (get_device (has_num num) h.storage_list) (Commands.eject os) h
status_of os (fsck drive) h = named (remove_blanks drive) (Commands.fsck os (remove_blanks drive)) h
status_of os (set_volume_label drive label) h =
    named drive (Commands.set_partition_volume_label os drive label) h
status_of os umount_all_drive h =
    if is_nil h.storage_list then none else some (on_devices (umount_device os) success h).0
status_of os (is_writable_drive drive) h = named drive (writable_status os drive) h
status_of os (mount_fsck need name) h = named name (Commands.enforce_fsck_and_mount os need) h
status_of os (space_info direct drive) h = named drive (space_status os direct drive) h
status_of os io_performance h = none
status_of os no_command h = none

command_response-IsReplyOf :
    (status : PdmDevStatus) (r : Reply) → r.response ≡ command_response status → IsReplyOf status r
unfolding command_response
command_response-IsReplyOf success r e = record {
  value = ap (λ (c : CommandResponse). c.return_value) e;
  info = ap (λ (c : CommandResponse). c.error_info) e;
}
command_response-IsReplyOf _ r e = record {
  value = ap (λ (c : CommandResponse). c.return_value) e;
  info = ap (λ (c : CommandResponse). c.error_info) e;
}

refused : (h : Handler) (r : Option Reply) → IsAnswer none h false r h
refused h r = record { outcome = (refl, refl); keeps = Keeps-refl h }

taken :
    (h h' : Handler) (actual status : PdmDevStatus) (r : Reply)
    → r.response ≡ command_response actual
    → actual ≡ status
    → Keeps h h'
    → IsAnswer (some status) h true (some r) h'
taken h h' actual status r e same k = record {
  outcome = (refl, command_response-IsReplyOf status r (e ∙ ap command_response same));
  keeps = k;
}

pub any_trace : (a b : Handler) (t : Trace) → Keeps a b → Keeps a (record b { trace = t })
any_trace a b t k = (k.0, λ i. record { bounded = (k.1 i).bounded })

pub on_devices-Keeps :
    {A : Type 0} (body : A → OnDev A) (a : A) (h : Handler) → Keeps h (on_devices body a h).1
unfolding on_devices
on_devices-Keeps body a h = (
  refl,
  λ b. record { bounded = rw (sweep_devices-length body a h.storage_list h.trace) b.bounded },
)

on_device-status :
    {A : Type 0} (default : A) (test : StorageDevice → Bool) (m : OnDev A) (h : Handler)
    (d : StorageDevice)
    → get_device test h.storage_list ≡ some d
    → (on_device default test m h).0 ≡ (m (record { device = d; trace = h.trace })).0
unfolding on_device
on_device-status default test m h d e = at_device-result default test m h.storage_list h.trace d e

on_named-Answers :
    (os : Os) (name : String) (missing : PdmDevStatus) (m : OnDev PdmDevStatus) (h : Handler)
    → Answers (named name m h) h (on_named os name missing m h)
on_named-Answers os name missing m h =
    elim (Option-cases (get_device (has_name name) h.storage_list)) [
      | inl e ↦ rw (e, on_named) (refused h _)
      | inr (d, e) ↦
          rw (e, on_named)
            (taken h _ _ _ _ refl (on_device-status missing (has_name name) m h d e)
              (on_device-Keeps missing (has_name name) m h))
    ]

eject_request-Answers :
    (os : Os) (num : ℤ) (h : Handler)
    → Answers
        (asked (get_device (has_num num) h.storage_list) (Commands.eject os) h)
        h
        (eject_request os num h)
unfolding eject_request eject_found
eject_request-Answers os num h = elim (Option-cases (get_device (has_num num) h.storage_list)) [
  | inl e ↦ rw (e, eject_request) (refused h _)
  | inr (d, e) ↦
      rw (e, eject_request)
        (taken h _ _ _ _ refl
          (on_device-status device_not_found (has_num num) (Commands.eject os) h d e)
          (any_trace h _ _ (on_device-Keeps device_not_found (has_num num) (Commands.eject os) h)))
]

umount_all_request-Answers :
    (os : Os) (h : Handler) → Answers (status_of os umount_all_drive h) h (umount_all_request os h)
unfolding umount_all_request umount_devices status_of
umount_all_request-Answers os h = elim (Bool-cases (is_nil h.storage_list)) [
  | inl e ↦ rw e (refused h _)
  | inr e ↦
      rw e (
        taken h _ _ _ _ refl refl (any_trace h _ _ (on_devices-Keeps (umount_device os) success h)))
]

is_writable_request-Answers :
    (os : Os) (name : String) (h : Handler)
    → Answers (named name (writable_status os name) h) h (is_writable_request os name h)
unfolding is_writable_request
is_writable_request-Answers os name h =
    elim (Option-cases (get_device (has_name name) h.storage_list)) [
      | inl e ↦ rw (e, is_writable_request) (refused h _)
      | inr (d, e) ↦
          rw (e, is_writable_request)
            (taken h _ _ _ _ refl
              (ap (λ (r : PdmDevStatus × Bool). r.0)
                (on_device-status (error, false) (has_name name) (Commands.is_writable os name) h d
                  e))
              (on_device-Keeps (error, false) (has_name name) (Commands.is_writable os name) h))
    ]

space_reply-response :
    (os : Os) (p : Option DiskPartitionInfo)
    → (space_reply os p).response ≡ command_response (mounted_status p)
unfolding space_reply
space_reply-response os none = refl
space_reply-response os (some p) = elim (Bool-cases p.is_mounted) [
  | inl e ↦ rw e refl
  | inr e ↦ rw e refl
]

get_space_info_request-Answers :
    (os : Os) (direct : Bool) (name : String) (h : Handler)
    → Answers
        (named name (space_status os direct name) h)
        h
        (get_space_info_request os direct name h)
unfolding get_space_info_request
get_space_info_request-Answers os direct name h =
    elim (Option-cases (get_device (has_name name) h.storage_list)) [
      | inl e ↦ rw (e, get_space_info_request) (refused h _)
      | inr (d, e) ↦
          rw (e, get_space_info_request)
            (taken h _ _ _ _ (space_reply-response os _)
              (ap mounted_status (
                on_device-status none (has_name name) (Commands.get_space_info os name direct) h d
                  e))
              (on_device-Keeps none (has_name name) (Commands.get_space_info os name direct) h))
    ]

pub handler_command-Answers :
    (os : Os) (c : CommandType) (h : Handler)
    → Answers (status_of os c h) h (handler_command os c h)
unfolding handler_command format_request fsck_request set_volume_label_request mount_fsck_request
    status_of
handler_command-Answers os (format drive fs label) h = on_named-Answers os drive _ _ h
handler_command-Answers os (eject num) h = eject_request-Answers os num h
handler_command-Answers os (fsck drive) h = on_named-Answers os (remove_blanks drive) _ _ h
handler_command-Answers os (set_volume_label drive label) h = on_named-Answers os drive _ _ h
handler_command-Answers os umount_all_drive h = umount_all_request-Answers os h
handler_command-Answers os (is_writable_drive drive) h = is_writable_request-Answers os drive h
handler_command-Answers os (mount_fsck need name) h = on_named-Answers os name _ _ h
handler_command-Answers os (space_info direct drive) h =
    get_space_info_request-Answers os direct drive h
handler_command-Answers os io_performance h = refused h none
handler_command-Answers os no_command h = refused h none

-- Each command comes to the operation of its kind on the first device that the lookup of the name
-- or number finds. Where it finds none, or the command is none of the handler's, the handler
-- refuses and stays as it is, so that the next handler can try. Otherwise it takes the command and
-- its reply is that of the status which the operation answers: the value true and no error for
-- success alone, and the value false with the code and the text of the status for any other. The
-- unmount of all drives is on all devices, and is refused where there is none.
pub handler_command-Outcome :
    (os : Os) (c : CommandType) (h : Handler)
    → let ((taken, reply), h') = handler_command os c h in
      Outcome (status_of os c h) h taken reply h'
handler_command-Outcome os c h = (handler_command-Answers os c h).outcome
