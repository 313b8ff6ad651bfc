-- ===== src/Examples/Alerts.antt =====
-- The theorems on the notification manager at concrete inputs.
use com_webos_service_pdm.Prelude.{
  ℕ, zero, suc, ap, true, false, ◌≡◌, refl, List, [], ◌∷◌, some, arith, length,
}
use com_webos_service_pdm.Os.{max_count_reached, connecting, storage_device}
use com_webos_service_pdm.Notifications.{
  connecting_event, max_count_reached_event, null, Environment, Manager, signal, request_suspend,
  prepare_resume, resume_done, send_alert_info,
}
use com_webos_service_pdm.Notifications.Memory.{
  IsBounded, IsSent, read_signal, take, send_alert_info-IsSent, send_alert_info_twice,
}
use com_webos_service_pdm.Notifications.Alerts.{
  Request, changed, power, serve_all, alerts-IsBounded, suspended-quiet,
}
use com_webos_service_pdm.Notifications

abbrev listening : Environment
listening = record {
  stringify = λ e ps. if_connecting e;
  gigabytes = λ n. "1.00";
  event_monitor = 99;
}
  where
    if_connecting : Notifications.PdmEvent → List ℕ
    if_connecting connecting_event = 1 ∷ 2 ∷ []
    if_connecting _ = 3 ∷ 4 ∷ 5 ∷ []

abbrev mapped : Manager
mapped = record { power_state = true; memory = some (0 ∷ 0 ∷ 0 ∷ 0 ∷ []); sent = [] }

zeros : ℕ → List ℕ
zeros zero = []
zeros (suc n) = 0 ∷ zeros n

-- A whole mapping.
abbrev whole : Manager
whole = record { power_state = true; memory = some (zeros 256); sent = [] }

length-zeros : (n : ℕ) → length (zeros n) ≡ n
unfolding zeros
length-zeros zero = refl
length-zeros (suc n) = ap suc (length-zeros n)

abbrev moves : List Request
moves =
    changed storage_device max_count_reached null
    ∷ power request_suspend
    ∷ changed storage_device connecting null
    ∷ []

send_alert_info-IsSent_example :
    IsSent listening
      (3 ∷ 4 ∷ 5 ∷ [])
      mapped
      (send_alert_info listening max_count_reached_event [] mapped)
send_alert_info-IsSent_example =
    send_alert_info-IsSent listening max_count_reached_event [] mapped (0 ∷ 0 ∷ 0 ∷ 0 ∷ []) refl
      refl refl

send_alert_info_twice_example :
    let m =
      send_alert_info listening max_count_reached_event []
        (send_alert_info listening connecting_event [] mapped) in
    (m.sent ≡ signal 99 3 ∷ signal 99 2 ∷ [])
    × (read_signal (signal 99 2) m.memory ≡ take 2 (3 ∷ 4 ∷ 5 ∷ []))
send_alert_info_twice_example =
    send_alert_info_twice listening connecting_event max_count_reached_event [] [] mapped
      (0 ∷ 0 ∷ 0 ∷ 0 ∷ []) refl refl refl refl (omega arith)

alerts-IsBounded_example : IsBounded (serve_all listening moves whole)
alerts-IsBounded_example =
    alerts-IsBounded listening moves whole (record { mapped = length-zeros 256; fits = tt })

suspended-quiet_example :
    let quiet : Manager = record mapped { power_state = false } in
    (serve_all listening (power request_suspend ∷ moves) mapped ≡ quiet)
    × (serve_all listening (power prepare_resume ∷ moves) mapped ≡ quiet)
suspended-quiet_example = suspended-quiet listening moves mapped (refl, (refl, (refl, tt)))
