-- ===== src/DeviceClass/Factory/Subsystems.antt =====
-- The subsystems that register with the factory, and the tests canProcessEvent by which they claim
-- an event (inc/private/*Subsystem.h and *SubSystem.h), in a build without WEBOS_SESSION.
use com_webos_service_pdm.Prelude.{
  String, Bool, true, false, ◌||◌, not, ◌&&◌, ◌≡◌, refl, inl, inr, List, [], ◌∷◌, map, some, All,
  str_eq, Bool-cases, Option-cases,
}
use com_webos_service_pdm.DeviceClass.{Props, get_prop, contains}
use com_webos_service_pdm.DeviceClass.Factory
use com_webos_service_pdm.DeviceClass.Factory.{Subsystem, IsPassed, create, create-default}

pub data Kind : Type 0 where
  bluetooth : Kind
  cdc : Kind
  default : Kind
  gamepad : Kind
  hid : Kind
  mtp : Kind
  nfc : Kind
  ptp : Kind
  sound : Kind
  storage : Kind
  video : Kind

-- The name that each registers.
pub name_of : Kind → String
name_of bluetooth = "bluetooth"
name_of cdc = "cdc"
name_of default = "default"
name_of gamepad = "gamepad"
name_of hid = "input"
name_of mtp = "mtp"
name_of nfc = "nfc"
name_of ptp = "ptp"
name_of sound = "sound"
name_of storage = "storage"
name_of video = "video4linux"

has_interface : String → Props → Bool
has_interface class p = contains class (get_prop "ID_USB_INTERFACES" p)

pub can_process_event : Kind → Props → Bool
unfolding has_interface
can_process_event bluetooth p = str_eq (get_prop "ID_BLUETOOTH" p) "1"
can_process_event cdc p =
    has_interface ":02" p
    || str_eq (get_prop "ID_USB_MODEM_DONGLE" p) "1"
    || has_interface ":0206" p
    || str_eq (get_prop "ID_USB_MODEM_DONGLE" p) "1"
can_process_event default p = true
can_process_event gamepad p = str_eq (get_prop "ID_GAMEPAD" p) "1"
can_process_event hid p = has_interface ":03" p
can_process_event mtp p = false
can_process_event nfc p = has_interface ":0b" p
can_process_event ptp p = has_interface ":06" p
can_process_event sound p = has_interface ":01" p || str_eq (get_prop "SUBSYSTEM" p) "sound"
can_process_event storage p = has_interface ":08" p || str_eq (get_prop "ID_ATA" p) "1"
can_process_event video p =
    not (not (has_interface ":0e" p) && not (str_eq (get_prop "SUBSYSTEM" p) "video4linux"))

-- The map of the factory; its order is not known.
unfoldable pub registered : List Kind → List Subsystem
unfolding name_of can_process_event
registered ks = map (λ k. (name_of k, can_process_event k)) ks

-- What the factory's choice of a name says of the event.
pub data Claimed (ks : List Kind) (p : Props) (name : String) : Type 0 where
  by_kind :
      (k : Kind)
      → str_eq (name_of k) "default" ≡ false
      → name ≡ name_of k
      → can_process_event k p ≡ true
      → Claimed ks p name
  by_none : name ≡ "default" → All (IsPassed p) (registered ks) → Claimed ks p name

is_default : (k : Kind) → str_eq (name_of k) "default" ≡ true → name_of k ≡ "default"
unfolding name_of
is_default default h = refl
is_default bluetooth h = absurd (cc h)
is_default cdc h = absurd (cc h)
is_default gamepad h = absurd (cc h)
is_default hid h = absurd (cc h)
is_default mtp h = absurd (cc h)
is_default nfc h = absurd (cc h)
is_default ptp h = absurd (cc h)
is_default sound h = absurd (cc h)
is_default storage h = absurd (cc h)
is_default video h = absurd (cc h)

find_subsystem-Claimed :
    (ks : List Kind) (p : Props) (name : String)
    → Factory.find_subsystem (registered ks) p ≡ some name
    → (k : Kind) × (str_eq (name_of k) "default" ≡ false)
      × (name ≡ name_of k)
      × (can_process_event k p ≡ true)
unfolding Factory.find_subsystem registered
find_subsystem-Claimed [] p name h = absurd (cc h)
find_subsystem-Claimed (k ∷ ks) p name h = elim (Bool-cases (str_eq (name_of k) "default")) [
  | inl e ↦ find_subsystem-Claimed ks p name (rw e at h)
  | inr e ↦ elim (Bool-cases (can_process_event k p)) [
    | inl c ↦ (k, e, cc (rw (e, c) at h), c)
    | inr c ↦ find_subsystem-Claimed ks p name (rw (e, c) at h)
  ]
]

find_default-name :
    (ks : List Kind) (name : String)
    → Factory.find_default (registered ks) ≡ some name
    → name ≡ "default"
unfolding Factory.find_default registered
find_default-name [] name h = absurd (cc h)
find_default-name (k ∷ ks) name h = elim (Bool-cases (str_eq (name_of k) "default")) [
  | inl e ↦ cc (rw e at h, is_default k e)
  | inr e ↦ find_default-name ks name (rw e at h)
]

-- In whatever order the map holds the subsystems, an event that is given a class is given that of a
-- subsystem whose test it passes, or the default where all others refuse it.
pub create-Claimed :
    (ks : List Kind) (p : Props) (name : String)
    → create (registered ks) p ≡ some name
    → Claimed ks p name
unfolding create
create-Claimed ks p name h = elim (Option-cases (Factory.find_subsystem (registered ks) p)) [
  | inr (n, e) ↦
      let c = find_subsystem-Claimed ks p n e in by_kind c.0 c.1 (cc (rw e at h, c.2)) c.3
  | inl e ↦
      by_none (find_default-name ks name (rw e at h))
        (Factory.find_subsystem-none (registered ks) p e)
]
