-- ===== src/DeviceClass/Factory.antt =====
-- framework/DeviceClassFactory.cpp: from the udev properties of an event to a device class, and the
-- tests by which the subsystems (inc/private/*Subsystem.h) claim an event.
pub mod Subsystems
use com_webos_service_pdm.Prelude.{
  ℕ, zero, suc, String, code, Bool, true, false, ◌&&◌, ◌==◌, ◌≡◌, refl, ◌⊎◌, inl, inr, List, [],
  ◌∷◌, Option, none, some, All, arith, str_eq, starts_with, if◌then◌else◌, Bool-cases, Option-cases,
}
use com_webos_service_pdm.DeviceClass.{Props, get_prop, put_prop}
use com_webos_service_pdm.DeviceClass.Props.{get_prop-put_prop}

-- std::replace of every '_' by ' '
replace_underscores : String → String
replace_underscores String.[] = String.[]
replace_underscores (String.◌∷◌ c s) =
    let rest = replace_underscores s in
    if code c == b'_' then String.◌∷◌ " " rest else String.◌∷◌ c rest

-- value.erase(0, n)
unfoldable pub erase_front : ℕ → String → String
erase_front zero s = s
erase_front (suc n) String.[] = String.[]
erase_front (suc n) (String.◌∷◌ c s) = erase_front n s

erase_dev : String → String
unfolding erase_front
erase_dev value = if starts_with value "/dev/" then erase_front 5 value else value

pub clean_prop : String → String → String
unfolding replace_underscores erase_dev
clean_prop name value =
    let value' = if str_eq name "ID_MODEL" then replace_underscores value else value in
    if str_eq name "DEVNAME" then erase_dev value' else value'

-- The loop over the property list of the udev device.
pub read_props : List (String × String) → Props → Props
read_props [] p = p
read_props ((name, value) ∷ rest) p = read_props rest (put_prop name (clean_prop name value) p)

unfoldable pub parse_dev_props : List (String × String) → Bool → Props
unfolding read_props
parse_dev_props udev is_power_on_connect =
    let p = read_props udev [] in
    if is_power_on_connect
    then put_prop "isPowerOnConnect" "true" (put_prop "ACTION" "add" p)
    else put_prop "isPowerOnConnect" "false" p

-- A registered subsystem: its name, and whether its `create` accepts the properties.
abbrev pub Subsystem : Type 0
Subsystem = String × (Props → Bool)

-- The loop over the map, in the order in which it stands.
find_subsystem : List Subsystem → Props → Option String
find_subsystem [] p = none
find_subsystem ((name, accepts) ∷ subs) p =
    let rest = find_subsystem subs p in
    if str_eq name "default" then rest else if accepts p then some name else rest

pub find_default : List Subsystem → Option String
find_default [] = none
find_default ((name, accepts) ∷ subs) =
    if str_eq name "default" then some name else find_default subs

abbrev pub or_else : Option String → Option String → Option String
or_else none d = d
or_else (some name) d = some name

unfoldable pub create : List Subsystem → Props → Option String
unfolding find_subsystem find_default
create subs p = or_else (find_subsystem subs p) (find_default subs)

-- Whether a subsystem is the default or refuses the event.
abbrev pub IsPassed : Props → Subsystem → Type 0
IsPassed p s = (str_eq s.0 "default" ≡ true) ⊎ (s.1 p ≡ false)

find_subsystem-none :
    (subs : List Subsystem) (p : Props) → find_subsystem subs p ≡ none → All (IsPassed p) subs
unfolding find_subsystem
find_subsystem-none [] p h = tt
find_subsystem-none ((name, accepts) ∷ subs) p h = elim (Bool-cases (str_eq name "default")) [
  | inl e ↦ (inl e, find_subsystem-none subs p (rw e at h))
  | inr e ↦ elim (Bool-cases (accepts p)) [
    | inl f ↦ absurd (cc (rw (e, f) at h))
    | inr f ↦ (inr f, find_subsystem-none subs p (rw (e, f) at h))
  ]
]

find_subsystem_passed :
    (subs : List Subsystem) (p : Props) → All (IsPassed p) subs → find_subsystem subs p ≡ none
unfolding find_subsystem
find_subsystem_passed [] p h = refl
find_subsystem_passed ((name, accepts) ∷ subs) p (inl e, h) = rw e (find_subsystem_passed subs p h)
find_subsystem_passed ((name, accepts) ∷ subs) p (inr e, h) =
    ground (arith, find_subsystem_passed subs p h, e)

find_subsystem_name :
    (subs : List Subsystem) (p : Props) (name : String)
    → find_subsystem subs p ≡ some name
    → str_eq name "default" ≡ false
unfolding find_subsystem
find_subsystem_name [] p name h = cc
find_subsystem_name ((n, accepts) ∷ subs) p name h = ground (arith, find_subsystem_name subs p name)

-- If an event is given the default class, then every other registered subsystem refuses it, in
-- whatever order the map holds them.
create-default :
    (subs : List Subsystem) (p : Props) → create subs p ≡ some "default" → All (IsPassed p) subs
unfolding create
create-default subs p h = elim (Option-cases (find_subsystem subs p)) [
  | inl e ↦ find_subsystem-none subs p e
  | inr (name, e) ↦ absurd (cc (find_subsystem_name subs p name e, rw e at h))
]

-- If every registered subsystem but the default refuses an event, then it is given the default
-- class, or none where no default is registered.
create-find_default :
    (subs : List Subsystem) (p : Props) → All (IsPassed p) subs → create subs p ≡ find_default subs
unfolding create
create-find_default subs p h = rw (find_subsystem_passed subs p h) refl

-- The value that the last pair with this name gives.
abbrev pub last_value : String → List (String × String) → Option String
last_value k [] = none
last_value k ((name, value) ∷ rest) =
    or_else (last_value k rest) (if str_eq name k then some (clean_prop name value) else none)

abbrev pub or_prop : Option String → String → String
or_prop none d = d
or_prop (some v) d = v

get_prop-read_props :
    (k : String) (udev : List (String × String)) (p : Props)
    → get_prop k (read_props udev p) ≡ or_prop (last_value k udev) (get_prop k p)
unfolding read_props
get_prop-read_props k [] p = refl
get_prop-read_props k ((name, value) ∷ rest) p = ground (
  arith,
  get_prop-read_props k rest (put_prop name (clean_prop name value) p),
  get_prop-put_prop name k (clean_prop name value) p,
)

get_prop-nil : (k : String) → get_prop k [] ≡ ""
unfolding get_prop
get_prop-nil k = refl

-- A device that was there at the start has the action "add", whatever udev says. The power-on mark
-- says which it is, and every other property is the last one that udev lists under its name.
parse_dev_props_lem :
    (k : String) (udev : List (String × String)) (on : Bool)
    → get_prop k (parse_dev_props udev on) ≡ (
        if str_eq "isPowerOnConnect" k
        then (if on then "true" else "false")
        else if on && str_eq "ACTION" k
        then "add"
        else or_prop (last_value k udev) "")
unfolding parse_dev_props
parse_dev_props_lem k udev true = simp (get_prop-put_prop, get_prop-read_props, get_prop-nil)
parse_dev_props_lem k udev false = simp (get_prop-put_prop, get_prop-read_props, get_prop-nil)
