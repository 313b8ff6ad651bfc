-- ===== src/Peripherals/Cdc/Store.antt =====
-- The pointers of the handler's list and the objects that were deleted.
use com_webos_service_pdm.Prelude.{
  arith, ℕ, zero, suc, ◌+◌, ◌<◌, ◌==◌, Bool, false, not, ◌||◌, ◌≡◌, refl, ap, List, [], ◌∷◌, ◌++◌,
  Option, none, some, All, All-append, str_eq, length, length-append, if_cases, Bool-cases, inl,
  inr,
}
use com_webos_service_pdm.Os.{Os}
use com_webos_service_pdm.DeviceClass.{
  Props, get_action, get_dev_type, get_dev_path, get_subsystem_name, find_device_action,
  DeviceActions, dev_add, dev_remove, dev_change, dev_bind, dev_unknown,
}
use com_webos_service_pdm.Devices.Lists.{Each}
use com_webos_service_pdm.Peripherals.Cdc
use com_webos_service_pdm.Peripherals.Cdc.{
  CdcDevice, CdcHandler, DongleEvent, is_modem, deref, store, passes, get_device, remove_all,
  remove_device, process_cdc_device, identify_cdc_device, handler_event, handle_plugin_event,
  dongle_supported, dongle_not_supported, other_dongle,
}

abbrev pub elem : ℕ → List ℕ → Bool
elem i [] = false
elem i (j ∷ is) = i == j || elem i is

abbrev pub IsDistinct : List ℕ → Type 0
IsDistinct [] = Unit
IsDistinct (i ∷ is) = (elem i is ≡ false) × IsDistinct is

-- Each pointer is to an object that was made and not deleted, and none was deleted twice.
pub record IsLive (h : CdcHandler) : Type 0 where
  pub live : All (λ i. elem i h.deleted ≡ false) h.list
  pub made : All (λ i. i < length h.objects) h.list
  pub gone : All (λ i. i < length h.objects) h.deleted
  pub once : IsDistinct h.deleted

All-map {ℓ κ} :
    {A : Type 0} (P : A → Type ℓ) (Q : A → Type κ)
    → ((a : A) → P a → Q a)
    → (l : List A) → All P l
    → All Q l
All-map P Q f [] h = tt
All-map P Q f (a ∷ l) h = (f a h.0, All-map P Q f l h.1)

length-store : (d : CdcDevice) (ds : List CdcDevice) (n : ℕ) → length (store d ds n) ≡ length ds
unfolding store
length-store d [] n = refl
length-store d (e ∷ ds) zero = refl
length-store d (e ∷ ds) (suc n) = ap suc (length-store d ds n)

fresh : (n : ℕ) (l : List ℕ) → All (λ i. i < n) l → elem n l ≡ false
fresh n [] h = refl
fresh n (i ∷ l) h = ground (arith, fresh n l h.1)

-- What is removed everywhere is not there, and the rest stays.
remove_all-live :
    (i : ℕ) (deleted l : List ℕ)
    → All (λ j. elem j deleted ≡ false) l
    → All (λ j. elem j (i ∷ deleted) ≡ false) (remove_all i l)
unfolding remove_all
remove_all-live i deleted [] h = tt
remove_all-live i deleted (j ∷ l) h = elim (Bool-cases (i == j)) [
  | inl e ↦ rw e (remove_all-live i deleted l h.1)
  | inr e ↦ rw e ((ground arith), remove_all-live i deleted l h.1)
]

remove_all-All : (P : ℕ → Type 0) (i : ℕ) (l : List ℕ) → All P l → All P (remove_all i l)
unfolding remove_all
remove_all-All P i [] h = tt
remove_all-All P i (j ∷ l) h = elim (Bool-cases (i == j)) [
  | inl e ↦ rw e (remove_all-All P i l h.1)
  | inr e ↦ rw e (h.0, remove_all-All P i l h.1)
]

get_device-Each :
    (P : ℕ → Type 0) (path : _) (objects : List CdcDevice) (l : List ℕ)
    → All P l
    → Each P (get_device path objects l)
unfolding get_device
get_device-Each P path objects [] h = tt
get_device-Each P path objects (i ∷ l) h = elim (Bool-cases (passes path (deref objects i))) [
  | inl e ↦ rw e h.0
  | inr e ↦ rw e (get_device-Each P path objects l h.1)
]

more : (n : ℕ) (l : List ℕ) → All (λ i. i < n) l → All (λ i. i < n + 1) l
more n l h = All-map (λ i. i < n) (λ i. i < n + 1) (λ i p. omega arith) l h

module _ (os : Os) where
  new_path-IsLive : (dev : Props) (h : CdcHandler) → IsLive h → IsLive (Cdc.new_path os dev h)
  unfolding Cdc.new_path
  new_path-IsLive dev h l =
      let n = length h.objects in
      let not_gone : elem n h.deleted ≡ false = fresh n h.deleted l.gone in
      let size : length (h.objects ++ Cdc.set_device_info os dev Cdc.new_cdc ∷ []) ≡ n + 1 =
        length-append h.objects _ in
      let lives = λ (is : List ℕ) (q : All (λ i. elem i h.deleted ≡ false) is).
        All-append (λ i. elem i h.deleted ≡ false) is (n ∷ []) q (not_gone, tt) in
      let makes = λ (is : List ℕ) (q : All (λ i. i < n + 1) is).
        All-append (λ i. i < n + 1) is (n ∷ []) q (omega arith, tt) in
      let made1 = makes h.list (more n h.list l.made) in
      let live1 = lives h.list l.live in
      let gone1 = more n h.deleted l.gone in
      if_cases IsLive (is_modem dev)
        (λ _. record {
          live = lives _ live1;
          made = rw size (makes _ made1);
          gone = rw size gone1;
          once = l.once;
        })
        (λ _. record { live = live1; made = rw size made1; gone = rw size gone1; once = l.once })

  length-updated :
      (dev : Props) (o : Option CdcDevice) (i : ℕ) (objects : List CdcDevice)
      → length (Cdc.updated dev o i objects) ≡ length objects
  unfolding Cdc.updated
  length-updated dev none i objects = refl
  length-updated dev (some d) i objects = length-store _ objects i

  add_path-IsLive :
      (dev : Props) (o : Option ℕ) (h : CdcHandler)
      → Each (λ i. (elem i h.deleted ≡ false) × (i < length h.objects)) o
      → IsLive h
      → IsLive (Cdc.add_path os dev o h)
  unfolding Cdc.add_path
  add_path-IsLive dev none h p l = new_path-IsLive dev h l
  add_path-IsLive dev (some i) h p l =
      let size = length-updated dev (deref h.objects i) i h.objects in
      record {
        live = All-append (λ j. elem j h.deleted ≡ false) h.list (i ∷ []) l.live (p.0, tt);
        made = rw size (All-append (λ j. j < length h.objects) h.list (i ∷ []) l.made (p.1, tt));
        gone = rw size l.gone;
        once = l.once;
      }

  remove_path-IsLive :
      (o : Option ℕ) (h : CdcHandler)
      → Each (λ i. (elem i h.deleted ≡ false) × (i < length h.objects)) o
      → IsLive h
      → IsLive (Cdc.remove_path os o h)
  unfolding Cdc.remove_path remove_device
  remove_path-IsLive none h p l = l
  remove_path-IsLive (some i) h p l = record {
    live = remove_all-live i h.deleted h.list l.live;
    made = remove_all-All (λ j. j < length h.objects) i h.list l.made;
    gone = (p.1, l.gone);
    once = (p.0, l.once);
  }

  All-both : (P Q : ℕ → Type 0) (l : List ℕ) → All P l → All Q l → All (λ i. P i × Q i) l
  All-both P Q [] p q = tt
  All-both P Q (i ∷ l) p q = ((p.0, q.0), All-both P Q l p.1 q.1)

  process-IsLive : (dev : Props) (h : CdcHandler) → IsLive h → IsLive (process_cdc_device os dev h)
  unfolding process_cdc_device
  process-IsLive dev h l = go (find_device_action (get_action dev))
    where
      known :
          Each
            (λ i. (elem i h.deleted ≡ false) × (i < length h.objects))
            (get_device (get_dev_path dev) h.objects h.list)
      known =
          get_device-Each _ (get_dev_path dev) h.objects h.list (All-both _ _ h.list l.live l.made)

      go : (a : Option DeviceActions) → IsLive (Cdc.process_action os a dev h)
      go none = l
      go (some dev_add) = add_path-IsLive dev _ h known l
      go (some dev_remove) = remove_path-IsLive _ h known l
      go (some dev_change) = l
      go (some dev_bind) = l
      go (some dev_unknown) = l

  identified-IsLive :
      (dev : Props) (h : CdcHandler) → IsLive h → IsLive (Cdc.process_identified os dev h).1
  unfolding Cdc.process_identified
  identified-IsLive dev h l =
      let P = λ (r : Bool × CdcHandler). IsLive r.1 in
      if_cases P (not (identify_cdc_device os dev h)) (λ _. l)
        (λ _.
          if_cases P (str_eq (get_dev_type dev) "usb_device") (λ _. process-IsLive dev h l)
            (λ _.
              if_cases P
                (str_eq (get_subsystem_name dev) "net" || str_eq (get_subsystem_name dev) "tty")
                (λ _. process-IsLive dev h l) (λ _. l)))

  event-IsLive : (dev : Props) (h : CdcHandler) → IsLive h → IsLive (handler_event os dev h).1
  unfolding handler_event
  event-IsLive dev h l =
      let P = λ (r : Bool × CdcHandler). IsLive r.1 in
      let reset : CdcHandler = record h { device_removed = false } in
      let l' =
        process-IsLive dev reset
          (record { live = l.live; made = l.made; gone = l.gone; once = l.once }) in
      if_cases P (str_eq (get_action dev) "remove")
        (λ _.
          if_cases P (process_cdc_device os dev reset).device_removed (λ _. l')
            (λ _. identified-IsLive dev _ l'))
        (λ _. identified-IsLive dev h l)

-- What reaches the handler.
pub data Request : Type 0 where
  event : Props → Request
  dongle : DongleEvent → Request

pub serve_all : Os → List Request → CdcHandler → CdcHandler
serve_all os [] h = h
serve_all os (event dev ∷ rs) h = serve_all os rs (handler_event os dev h).1
serve_all os (dongle e ∷ rs) h = serve_all os rs (handle_plugin_event e h).1

dongle-IsLive : (e : DongleEvent) (h : CdcHandler) → IsLive h → IsLive (handle_plugin_event e h).1
unfolding handle_plugin_event
dongle-IsLive dongle_supported h l = record {
  live = l.live;
  made = l.made;
  gone = l.gone;
  once = l.once;
}
dongle-IsLive dongle_not_supported h l = record {
  live = l.live;
  made = l.made;
  gone = l.gone;
  once = l.once;
}
dongle-IsLive other_dongle h l = l

-- Whatever events and dongle settings reach a handler whose pointers are all to devices that were
-- made and not deleted, with none deleted twice, in any order and number, this stays so.
pub cdc_pointers-AreLive :
    (os : Os) (rs : List Request) (h : CdcHandler) → IsLive h → IsLive (serve_all os rs h)
unfolding serve_all
cdc_pointers-AreLive os [] h l = l
cdc_pointers-AreLive os (event dev ∷ rs) h l =
    cdc_pointers-AreLive os rs (handler_event os dev h).1 (event-IsLive os dev h l)
cdc_pointers-AreLive os (dongle e ∷ rs) h l =
    cdc_pointers-AreLive os rs (handle_plugin_event e h).1 (dongle-IsLive e h l)
