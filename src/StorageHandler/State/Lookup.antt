-- ===== src/StorageHandler/State/Lookup.antt =====
-- The lookups of inc/private/DeviceHandler.h and the actions on what they return.
use com_webos_service_pdm.Prelude.{
  Bool, true, false, ◌≡◌, refl, ap, List, [], ◌∷◌, ◌++◌, Option, none, some, Bool-cases, inl, inr,
  length, All, suc,
}
use com_webos_service_pdm.Os.{Trace}
use com_webos_service_pdm.StorageDevice.State.{StorageDevice, OnDev}
use com_webos_service_pdm.StorageHandler.State.{get_device, at_device, sweep_devices}

-- `d` stands in `ds` behind devices that fail the test, and passes it.
pub record IsFirst (test : StorageDevice → Bool) (ds : List StorageDevice) (d : StorageDevice)
    : Type 0 where
  pub before : List StorageDevice
  pub after : List StorageDevice
  pub splits : ds ≡ before ++ d ∷ after
  pub fails : All (λ e. test e ≡ false) before
  pub passes : test d ≡ true

abbrev pub IsFound : (StorageDevice → Bool) → List StorageDevice → Option StorageDevice → Type 0
IsFound test ds none = All (λ e. test e ≡ false) ds
IsFound test ds (some d) = IsFirst test ds d

-- A lookup finds the first device that passes its test, and where it finds none, every device
-- fails.
get_device-IsFound :
    (test : StorageDevice → Bool) (ds : List StorageDevice) → IsFound test ds (get_device test ds)
unfolding get_device
get_device-IsFound test [] = tt
get_device-IsFound test (d ∷ ds) = elim (Bool-cases (test d)) [
  | inl e ↦ rw e (record { before = []; after = ds; splits = refl; fails = tt; passes = e })
  | inr e ↦ rw e (behind e (get_device test ds) (get_device-IsFound test ds))
]
  where
    behind :
        test d ≡ false → (o : Option StorageDevice) → IsFound test ds o → IsFound test (d ∷ ds) o
    behind e none h = (e, h)
    behind e (some f) h = record {
      before = d ∷ h.before;
      after = h.after;
      splits = ap (λ l. d ∷ l) h.splits;
      fails = (e, h.fails);
      passes = h.passes;
    }

-- An action on the device that a lookup finds changes that device only.
at_device-IsFirst :
    {A : Type 0} (default : A) (test : StorageDevice → Bool) (m : OnDev A) (ds : List StorageDevice)
    (t : Trace) (d : StorageDevice) (f : IsFirst test ds d)
    → let r = m (record { device = d; trace = t }) in
      at_device default test m ds t ≡ (r.0, f.before ++ r.1.device ∷ f.after, r.1.trace)
unfolding at_device
at_device-IsFirst default test m ds t d f = rw f.splits (go f.before f.fails)
  where
    go :
        (before : List StorageDevice)
        → All (λ e. test e ≡ false) before
        → let r = m (record { device = d; trace = t }) in
          at_device default test m (before ++ d ∷ f.after) t
          ≡ (r.0, before ++ r.1.device ∷ f.after, r.1.trace)
    go [] h = rw f.passes refl
    go (e ∷ es) h = rw (h.0, go es h.1) refl

-- The result of an action on the device that a lookup finds.
pub at_device-result :
    {A : Type 0} (default : A) (test : StorageDevice → Bool) (m : OnDev A) (ds : List StorageDevice)
    (t : Trace) (d : StorageDevice)
    → get_device test ds ≡ some d
    → (at_device default test m ds t).0 ≡ (m (record { device = d; trace = t })).0
unfolding at_device get_device
at_device-result default test m [] t d h = absurd (cc h)
at_device-result default test m (e ∷ ds) t d h = elim (Bool-cases (test e)) [
  | inl p ↦ rw p (ap (λ x. (m (record { device = x; trace = t })).0) (cc (rw p at h)))
  | inr p ↦ rw p (at_device-result default test m ds t d (rw p at h))
]

pub at_device-length :
    {A : Type 0} (default : A) (test : StorageDevice → Bool) (m : OnDev A) (ds : List StorageDevice)
    (t : Trace)
    → length (at_device default test m ds t).1 ≡ length ds
unfolding at_device
at_device-length default test m [] t = refl
at_device-length default test m (d ∷ ds) t = elim (Bool-cases (test d)) [
  | inl e ↦ rw e refl
  | inr e ↦ rw e (ap suc (at_device-length default test m ds t))
]

pub sweep_devices-length :
    {A : Type 0} (body : A → OnDev A) (a : A) (ds : List StorageDevice) (t : Trace)
    → length (sweep_devices body a ds t).1 ≡ length ds
unfolding sweep_devices
sweep_devices-length body a [] t = refl
sweep_devices-length body a (d ∷ ds) t = ap suc (sweep_devices-length body _ ds _)
