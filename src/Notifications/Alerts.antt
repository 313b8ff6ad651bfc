-- ===== src/Notifications/Alerts.antt =====
-- The manager through any sequence of updates and power events.
use com_webos_service_pdm.Prelude.{
  Bool, true, false, not, ◌≡◌, refl, sym, ap, ◌∙◌, List, [], ◌∷◌, All, if_cases,
}
use com_webos_service_pdm.Os.{
  EventType, unknown, add, remove, change, mount, umount, mountall, unmountall, connecting,
  remove_before_mount, max_count_reached, unsupported_fs_format_needed, fsck_started,
  fsck_timed_out, fsck_finished, format_started, format_success, format_fail, remove_unsupported_fs,
  umountall_success, umountall_fail, DeviceEventType,
}
use com_webos_service_pdm.Notifications
use com_webos_service_pdm.Notifications.{
  PdmEvent, Observed, null, storage_device, partition_info, mtp, other_device, can_display_toast,
  Environment, Manager, PowerEvent, request_suspend, prepare_resume, resume_done, other_power,
  handle_plugin_event, send_alert_info, show, update,
}
use com_webos_service_pdm.Notifications.Memory.{IsBounded, send_alert_info-IsBounded}

-- What reaches the manager.
pub data Request : Type 0 where
  changed : DeviceEventType → EventType → Observed → Request
  power : PowerEvent → Request

module _ (env : Environment) where
  unfoldable pub serve : Request → Manager → Manager
  serve (changed k e d) m = update env k e d m
  serve (power p) m = (handle_plugin_event p m).1

  unfoldable pub serve_all : List Request → Manager → Manager
  unfolding serve
  serve_all [] m = m
  serve_all (r ∷ rs) m = serve_all rs (serve r m)

  alert_storage-IsBounded :
      (event : PdmEvent) (d : Observed) (m : Manager)
      → IsBounded m
      → IsBounded (Notifications.alert_storage env event d m)
  unfolding Notifications.alert_storage
  alert_storage-IsBounded event (storage_device d) m b = send_alert_info-IsBounded env event _ m b
  alert_storage-IsBounded event null m b = b
  alert_storage-IsBounded event (partition_info p) m b = b
  alert_storage-IsBounded event (mtp d) m b = b
  alert_storage-IsBounded event (other_device t) m b = b

  toast_partition-IsBounded :
      (event : PdmEvent) (d : Observed) (m : Manager)
      → IsBounded m
      → IsBounded (Notifications.toast_partition env event d m)
  unfolding Notifications.toast_partition
  toast_partition-IsBounded event (partition_info p) m b = send_alert_info-IsBounded env event _ m b
  toast_partition-IsBounded event null m b = b
  toast_partition-IsBounded event (storage_device p) m b = b
  toast_partition-IsBounded event (mtp d) m b = b
  toast_partition-IsBounded event (other_device t) m b = b

  mtp-IsBounded :
      (d : Observed) (m : Manager)
      → IsBounded m
      → IsBounded (Notifications.unmount_mtp_device_alert env d m)
  unfolding Notifications.unmount_mtp_device_alert
  mtp-IsBounded (mtp d) m b = send_alert_info-IsBounded env _ _ m b
  mtp-IsBounded null m b = b
  mtp-IsBounded (storage_device p) m b = b
  mtp-IsBounded (partition_info d) m b = b
  mtp-IsBounded (other_device t) m b = b

  timeout-IsBounded :
      (d : Observed) (m : Manager)
      → IsBounded m
      → IsBounded (Notifications.create_alert_for_fsck_timeout env d m)
  unfolding Notifications.create_alert_for_fsck_timeout
  timeout-IsBounded (storage_device d) m b = send_alert_info-IsBounded env _ _ m b
  timeout-IsBounded null m b = b
  timeout-IsBounded (mtp p) m b = b
  timeout-IsBounded (partition_info d) m b = b
  timeout-IsBounded (other_device t) m b = b

  removed-IsBounded :
      (k : DeviceEventType) (d : Observed) (m : Manager)
      → IsBounded m
      → IsBounded (Notifications.removed_before_mount env k d m)
  unfolding Notifications.removed_before_mount
      Notifications.create_alert_for_unmounted_device_removal
  removed-IsBounded k d m b =
      if_cases IsBounded (Notifications.is_mtp env k) (λ _. mtp-IsBounded d m b)
        (λ _. alert_storage-IsBounded _ d m b)

  show-IsBounded :
      (k : DeviceEventType) (e : EventType) (d : Observed) (m : Manager)
      → IsBounded m
      → IsBounded (show env k e d m)
  unfolding show Notifications.show_connecting_toast
      Notifications.create_alert_for_max_usb_storage_devices
      Notifications.create_alert_for_unsupported_file_system Notifications.show_format_started_toast
      Notifications.show_format_success_toast Notifications.show_format_fail_toast
      Notifications.close_unsupported_fs_alert
  show-IsBounded k unknown d m b = b
  show-IsBounded k add d m b = b
  show-IsBounded k remove d m b = b
  show-IsBounded k change d m b = b
  show-IsBounded k mount d m b = b
  show-IsBounded k umount d m b = b
  show-IsBounded k mountall d m b = b
  show-IsBounded k unmountall d m b = b
  show-IsBounded k connecting d m b = send_alert_info-IsBounded env _ _ m b
  show-IsBounded k remove_before_mount d m b = removed-IsBounded k d m b
  show-IsBounded k max_count_reached d m b = send_alert_info-IsBounded env _ _ m b
  show-IsBounded k unsupported_fs_format_needed d m b = alert_storage-IsBounded _ d m b
  show-IsBounded k fsck_started d m b = b
  show-IsBounded k fsck_timed_out d m b = timeout-IsBounded d m b
  show-IsBounded k fsck_finished d m b = b
  show-IsBounded k format_started d m b = toast_partition-IsBounded _ d m b
  show-IsBounded k format_success d m b = toast_partition-IsBounded _ d m b
  show-IsBounded k format_fail d m b = toast_partition-IsBounded _ d m b
  show-IsBounded k remove_unsupported_fs d m b = alert_storage-IsBounded _ d m b
  show-IsBounded k umountall_success d m b = b
  show-IsBounded k umountall_fail d m b = b

  serve-IsBounded : (r : Request) (m : Manager) → IsBounded m → IsBounded (serve r m)
  unfolding serve update handle_plugin_event
  serve-IsBounded (changed k e d) m b =
      if_cases IsBounded (not m.power_state) (λ _. b)
        (λ _.
          if_cases IsBounded (not (can_display_toast d)) (λ _. b) (λ _. show-IsBounded k e d m b))
  serve-IsBounded (power request_suspend) m b = record { mapped = b.mapped; fits = b.fits }
  serve-IsBounded (power prepare_resume) m b = record { mapped = b.mapped; fits = b.fits }
  serve-IsBounded (power resume_done) m b = record { mapped = b.mapped; fits = b.fits }
  serve-IsBounded (power other_power) m b = b

-- Whatever updates and power events reach a manager whose memory, where it is mapped, has 256
-- bytes, no alert writes beyond the memory: it keeps its size, and no signal tells a length of more
-- than 256.
pub alerts-IsBounded :
    (env : Environment) (rs : List Request) (m : Manager)
    → IsBounded m
    → IsBounded (serve_all env rs m)
unfolding serve_all
alerts-IsBounded env [] m b = b
alerts-IsBounded env (r ∷ rs) m b =
    alerts-IsBounded env rs (serve env r m) (serve-IsBounded env r m b)

abbrev pub is_resume : Request → Bool
is_resume (power resume_done) = true
is_resume (power _) = false
is_resume (changed k e d) = false

serve-quiet :
    (env : Environment) (r : Request) (m : Manager)
    → is_resume r ≡ false
    → m.power_state ≡ false
    → serve env r m ≡ m
unfolding serve update handle_plugin_event
serve-quiet env (changed k e d) m n p = simp p refl
serve-quiet env (power request_suspend) m n p = ap (λ b. record m { power_state = b }) (sym p)
serve-quiet env (power prepare_resume) m n p = ap (λ b. record m { power_state = b }) (sym p)
serve-quiet env (power resume_done) m n p = cc
serve-quiet env (power other_power) m n p = refl

serve_all-quiet :
    (env : Environment) (rs : List Request) (m : Manager)
    → All (λ r. is_resume r ≡ false) rs
    → m.power_state ≡ false
    → serve_all env rs m ≡ m
unfolding serve_all
serve_all-quiet env [] m n p = refl
serve_all-quiet env (r ∷ rs) m n p =
    ap (serve_all env rs) (serve-quiet env r m n.0 p) ∙ serve_all-quiet env rs m n.1 p

-- From a suspend request or the preparation of a resume on, and until the end of a resume, no
-- update sends an alert or writes to the memory.
pub suspended-quiet :
    (env : Environment) (rs : List Request) (m : Manager)
    → All (λ r. is_resume r ≡ false) rs
    → let quiet : Manager = record m { power_state = false } in
      (serve_all env (power request_suspend ∷ rs) m ≡ quiet)
      × (serve_all env (power prepare_resume ∷ rs) m ≡ quiet)
unfolding serve_all serve handle_plugin_event
suspended-quiet env rs m n =
    let quiet : Manager = record m { power_state = false } in
    (serve_all-quiet env rs quiet n refl, serve_all-quiet env rs quiet n refl)
