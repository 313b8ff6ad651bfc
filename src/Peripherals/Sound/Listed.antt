-- ===== src/Peripherals/Sound/Listed.antt =====
-- The sound cards that the handler keeps, and their parts.
use com_webos_service_pdm.Prelude.{
  String, Bool, true, false, not, ◌&&◌, ◌≡◌, refl, List, [], ◌∷◌, ◌++◌, Option, none, some, All,
  All-append, Option-cases, inl, inr, str_eq, starts_with, is_empty, if_cases, subst, str_eq_iff,
}
use com_webos_service_pdm.Os.{Os, Call, Trace, sound_device, remove, this_device}
use com_webos_service_pdm.DeviceClass.{
  Props, get_action, get_dev_type, get_dev_path, get_dev_name, get_subsystem_name, contains,
  find_device_action, get_device_action, DeviceActions, dev_add, dev_remove, dev_change, dev_bind,
  dev_unknown,
}
use com_webos_service_pdm.Devices
use com_webos_service_pdm.Devices.{Handler, has_path, get_device, remove_device, put_device}
use com_webos_service_pdm.Devices.Lists.{
  Each, get_device-Each, get_device-passes, remove_device-All, put_device-All,
}
use com_webos_service_pdm.Devices.Serve.{Operations, Request, serve_all, serve_all_keeps}
use com_webos_service_pdm.Peripherals
use com_webos_service_pdm.Peripherals.{Flagged, remove_path, flag_removed}
use com_webos_service_pdm.Peripherals.Apart.{
  IsApart, push-IsApart, remove-IsApart, put-IsApart, get_own, remove_own, own_path,
}
use com_webos_service_pdm.Peripherals.Sound
use com_webos_service_pdm.Peripherals.Sound.{
  SoundDevice, SoundSubDevice, new_sound, device_of, sub_of, sub_name, has_sub, update_subs,
  update_device_info, set_device_info, is_sound_device, process_sound_device, handler_event,
  handler_command, handle_plugin_event,
}

abbrev pub card_path : SoundDevice → String
card_path d = d.device_path

abbrev pub sub_path : SoundSubDevice → String
sub_path s = s.sub_path

-- The parts of a card have different paths.
abbrev pub HasParts : SoundDevice → Type 0
HasParts d = IsApart sub_path str_eq d.sub_devices

-- No card's path continues an earlier one's, and the parts of each have different paths.
pub record IsListed (h : Handler SoundDevice) : Type 0 where
  pub apart : IsApart card_path starts_with h.devices
  pub parts : All HasParts h.devices

add_sub-IsApart :
    (dev : Props) (ss : List SoundSubDevice)
    → IsApart sub_path str_eq ss
    → IsApart sub_path str_eq (Sound.add_sub dev (get_device (has_sub (sub_name dev)) ss) ss)
unfolding Sound.add_sub sub_of
add_sub-IsApart dev ss h = elim (Option-cases (get_device (has_sub (sub_name dev)) ss)) [
  | inl e ↦ rw e (push-IsApart sub_path str_eq (sub_of dev) ss e h)
  | inr (s, e) ↦ rw e (
      put-IsApart sub_path str_eq (has_sub (sub_name dev)) s (sub_of dev) ss e
        ((str_eq_iff (sub_name dev) s.sub_path).0
          (get_device-passes (has_sub (sub_name dev)) ss s e))
        h)
]

update_subs-IsApart :
    (a : DeviceActions) (dev : Props) (ss : List SoundSubDevice)
    → IsApart sub_path str_eq ss
    → IsApart sub_path str_eq (update_subs a dev ss)
unfolding update_subs
update_subs-IsApart dev_add dev ss h =
    if_cases (IsApart sub_path str_eq) (is_empty (get_dev_name dev)) (λ _. h)
      (λ _. add_sub-IsApart dev ss h)
update_subs-IsApart dev_remove dev ss h =
    remove-IsApart sub_path str_eq (has_sub (sub_name dev)) ss h
update_subs-IsApart dev_change dev ss h = h
update_subs-IsApart dev_bind dev ss h = h
update_subs-IsApart dev_unknown dev ss h = h

update-HasParts : (dev : Props) (d : SoundDevice) → HasParts d → HasParts (update_device_info dev d)
unfolding update_device_info
update-HasParts dev d h =
    if_cases HasParts (str_eq (get_subsystem_name dev) "sound")
      (λ _. update_subs-IsApart (get_device_action (get_action dev)) dev d.sub_devices h) (λ _. h)

update-card_path :
    (dev : Props) (d : SoundDevice) → card_path (update_device_info dev d) ≡ card_path d
unfolding update_device_info
update-card_path dev d =
    if_cases (λ (e : SoundDevice). card_path e ≡ card_path d)
      (str_eq (get_subsystem_name dev) "sound") (λ _. refl) (λ _. refl)

module _ (os : Os) where
  put-IsListed :
      (dev : Props) (d : SoundDevice) (h : Handler SoundDevice)
      → get_device (has_path device_of (get_dev_path dev)) h.devices ≡ some d
      → IsListed h
      → IsListed (Sound.put_updated os dev d h)
  unfolding Sound.put_updated
  put-IsListed dev d h e l =
      let test = has_path device_of (get_dev_path dev) in
      let parts : HasParts d =
        subst (Each HasParts) e (get_device-Each HasParts test h.devices l.parts) in
      record {
        apart =
            put-IsApart card_path starts_with test d _ h.devices e (update-card_path dev d) l.apart;
        parts = put_device-All HasParts test _ h.devices (update-HasParts dev d parts) l.parts;
      }

  add-IsListed :
      (dev : Props) (o : Option SoundDevice) (h : Handler SoundDevice)
      → get_device (has_path device_of (get_dev_path dev)) h.devices ≡ o
      → IsListed h
      → IsListed (Sound.add_path os dev o h)
  unfolding Sound.add_path set_device_info Devices.set_device_info new_sound
  add-IsListed dev none h e l =
      if_cases IsListed (contains "timer" (get_dev_name dev)) (λ _. l) (λ _. pushed)
    where
      pushed : IsListed (Peripherals.push (set_device_info os dev new_sound) h)
      pushed = record {
        apart =
            push-IsApart card_path starts_with (set_device_info os dev new_sound) h.devices e
              l.apart;
        parts = All-append HasParts h.devices _ l.parts (tt, tt);
      }
  add-IsListed dev (some d) h e l =
      let u = put-IsListed dev d h e l in
      if_cases IsListed (update_device_info dev d).built_in
        (λ _. record { apart = u.apart; parts = u.parts }) (λ _. u)

  change-IsListed :
      (dev : Props) (o : Option SoundDevice) (h : Handler SoundDevice)
      → get_device (has_path device_of (get_dev_path dev)) h.devices ≡ o
      → IsListed h
      → IsListed (Sound.change_path os dev o h)
  unfolding Sound.change_path
  change-IsListed dev none h e l = l
  change-IsListed dev (some d) h e l =
      let u = put-IsListed dev d h e l in record { apart = u.apart; parts = u.parts }

  remove-IsListed :
      (dev : Props) (f : Flagged SoundDevice)
      → IsListed f.handler
      → IsListed
          (flag_removed f (remove_path sound_device device_of (get_dev_path dev) f.handler)).handler
  unfolding remove_path
  remove-IsListed dev f l = go (get_device test f.devices)
    where
      test : SoundDevice → Bool
      test = has_path device_of (get_dev_path dev)

      go :
          (o : Option SoundDevice)
          → IsListed
              (flag_removed f (Peripherals.remove_found sound_device test o f.handler)).handler
      go none = l
      go (some d) = record {
        apart = remove-IsApart card_path starts_with test f.devices l.apart;
        parts = remove_device-All HasParts test f.devices l.parts;
      }

  process-IsListed :
      (dev : Props) (f : Flagged SoundDevice)
      → IsListed f.handler
      → IsListed (process_sound_device os dev f).handler
  unfolding process_sound_device
  process-IsListed dev f l = go (find_device_action (get_action dev))
    where
      go : (a : Option DeviceActions) → IsListed (Sound.process_action os a dev f).handler
      go none = l
      go (some dev_add) = add-IsListed dev _ f.handler refl l
      go (some dev_remove) = remove-IsListed dev f l
      go (some dev_change) = change-IsListed dev _ f.handler refl l
      go (some dev_bind) = l
      go (some dev_unknown) = l

  event-IsListed :
      (dev : Props) (f : Flagged SoundDevice)
      → IsListed f.handler
      → IsListed (handler_event os dev f).1.handler
  unfolding handler_event
  event-IsListed dev f l =
      let P = λ (r : Bool × Flagged SoundDevice). IsListed r.1.handler in
      if_cases P (not (str_eq (get_action dev) "remove") && not (is_sound_device dev)) (λ _. l)
        (λ _.
          if_cases P (str_eq (get_dev_type dev) "usb_device") (λ _. process-IsListed dev f l)
            (λ _.
              if_cases P (str_eq (get_subsystem_name dev) "sound") (λ _. process-IsListed dev f l)
                (λ _. l)))

  -- SoundDeviceHandler
  abbrev pub sound_operations : Operations (Flagged SoundDevice)
  sound_operations = record {
    handler_event = handler_event os;
    handler_command = handler_command os;
    handle_plugin_event = handle_plugin_event os;
  }

-- Whatever events, commands and power events reach a new sound handler, in any order and number, no
-- card that it holds has a path that continues the path of an earlier one, and the parts of each
-- card have different paths.
pub sound_cards-AreListed :
    (os : Os) (rs : List Request) (t : Trace)
    → let start : Flagged SoundDevice = record {
      handler = record { devices = []; trace = t };
      device_removed = false;
    } in
      IsListed (serve_all (sound_operations os) rs start).handler
unfolding handler_command handle_plugin_event
sound_cards-AreListed os rs t =
    serve_all_keeps (sound_operations os) (λ f. IsListed f.handler) (event-IsListed os) (λ c f l. l)
      (λ e f l. l) rs _ (record { apart = tt; parts = tt })

-- In a handler whose cards are listed so, a "remove" event with the path of a card removes that
-- card and no other, tells the observers once, and sets the flag.
sound_removed :
    (os : Os) (dev : Props) (f : Flagged SoundDevice) (before after : List SoundDevice)
    (d : SoundDevice)
    → f.devices ≡ before ++ d ∷ after
    → IsListed f.handler
    → get_action dev ≡ "remove"
    → get_dev_path dev ≡ d.device_path
    → process_sound_device os dev f ≡ record {
      handler = record {
        devices = before ++ after;
        trace = Call.observers sound_device remove this_device ∷ f.trace;
      };
      device_removed = true;
    }
unfolding process_sound_device Sound.process_action find_device_action remove_path
    Peripherals.remove_found
sound_removed os dev f before after d e l a p =
    let h : IsApart card_path starts_with (before ++ d ∷ after) =
      subst (IsApart card_path starts_with) e l.apart in
    simp
      (
        a,
        p,
        e,
        get_own card_path starts_with own_path before after d h,
        remove_own card_path starts_with own_path before after d h,
      )
      refl
