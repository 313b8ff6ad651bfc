-- ===== src/Devices/Lists.antt =====
-- A property of all devices of a list through the operations on the list.
use com_webos_service_pdm.Prelude.{
  Bool, true, ◌≡◌, sym, ap, ◌∙◌, subst, if◌then◌else◌, List, [], ◌∷◌, Option, none, some, All,
  Bool-cases, inl, inr,
}
use com_webos_service_pdm.Os.{Trace}
use com_webos_service_pdm.Devices.{get_device, remove_device, put_device, sweep}

abbrev pub Each {ℓ} : {D : Type ℓ} → (D → Type 0) → Option D → Type 0
Each P none = Unit
Each P (some d) = P d

module _ {D : Type 0} (P : D → Type 0) (test : D → Bool) where
  pub get_device-Each : (ds : List D) → All P ds → Each P (get_device test ds)
  unfolding get_device
  get_device-Each [] h = tt
  get_device-Each (d ∷ ds) h = elim (Bool-cases (test d)) [
    | inl e ↦ rw e h.0
    | inr e ↦ rw e (get_device-Each ds h.1)
  ]

  pub remove_device-All : (ds : List D) → All P ds → All P (remove_device test ds)
  unfolding remove_device
  remove_device-All [] h = tt
  remove_device-All (d ∷ ds) h = elim (Bool-cases (test d)) [
    | inl e ↦ rw e h.1
    | inr e ↦ rw e (h.0, remove_device-All ds h.1)
  ]

  pub put_device-All : (d' : D) (ds : List D) → P d' → All P ds → All P (put_device test d' ds)
  unfolding put_device
  put_device-All d' [] p h = tt
  put_device-All d' (d ∷ ds) p h = elim (Bool-cases (test d)) [
    | inl e ↦ rw e (p, h.1)
    | inr e ↦ rw e (h.0, put_device-All d' ds p h.1)
  ]

-- A lookup finds a device that passes its test.
pub get_device-passes :
    {D : Type 0} (test : D → Bool) (ds : List D) (d : D)
    → get_device test ds ≡ some d
    → test d ≡ true
unfolding get_device
get_device-passes test [] d e = cc
get_device-passes test (f ∷ ds) d e = elim (Bool-cases (test f)) [
  | inl t ↦ subst (λ x. test x ≡ true) (cc (t, e)) t
  | inr t ↦
      get_device-passes test ds d (sym (ap (λ b. if b then some f else get_device test ds) t) ∙ e)
]

module _ {D A : Type 0} (P : D → Type 0) (Q : Trace → Type 0)
    (body : A → D → Trace → A × D × Trace) where
  -- What each turn keeps of a device and of the trace, the loop keeps of all.
  pub sweep-All :
      ((a : A) (d : D) (t : Trace) → P d → Q t → P (body a d t).1 × Q (body a d t).2)
      → (a : A) (ds : List D) (t : Trace) → All P ds
      → Q t
      → All P (sweep body a ds t).1 × Q (sweep body a ds t).2
  unfolding sweep
  sweep-All keep a [] t h q = (tt, q)
  sweep-All keep a (d ∷ ds) t h q =
      let k = keep a d t h.0 q in
      let r = body a d t in let l = sweep-All keep r.0 ds r.2 h.1 k.1 in ((k.0, l.0), l.1)
