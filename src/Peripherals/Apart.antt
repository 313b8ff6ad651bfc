-- ===== src/Peripherals/Apart.antt =====
-- Lists of devices, or of parts of a device, none of whose paths is related to an earlier one's.
use com_webos_service_pdm.Prelude.{
  String, Bool, true, false, ◌≡◌, refl, sym, ap, ◌∙◌, List, [], ◌∷◌, ◌++◌, none, some, All,
  All-append, Bool-cases, inl, inr, subst, starts_with, starts_with-append, if◌then◌else◌,
}
use text.Mathlib.TextLemmas.{append-nil}
use com_webos_service_pdm.Devices.Lists.{Each, get_device-Each, remove_device-All, put_device-All}
use com_webos_service_pdm.Devices.{get_device, remove_device, put_device}

-- `rel` compares the path that is asked for with that of a device.
module _ {D : Type 0} (path : D → String) (rel : String → String → Bool) where
  abbrev pub has : String → D → Bool
  has p d = rel p (path d)

  abbrev pub Differs : String → D → Type 0
  Differs p d = has p d ≡ false

  abbrev pub IsApart : List D → Type 0
  IsApart [] = Unit
  IsApart (d ∷ ds) = All (λ e. rel (path e) (path d) ≡ false) ds × IsApart ds

  none_differ : (p : String) (ds : List D) → get_device (has p) ds ≡ none → All (Differs p) ds
  unfolding get_device
  none_differ p [] e = tt
  none_differ p (d ∷ ds) e = elim (Bool-cases (has p d)) [
    | inl f ↦ cc (f, e)
    | inr f ↦
        (f, none_differ p ds (sym (ap (λ b. if b then some d else get_device (has p) ds) f) ∙ e))
  ]

  pub push-IsApart :
      (d : D) (ds : List D)
      → get_device (has (path d)) ds ≡ none
      → IsApart ds
      → IsApart (ds ++ d ∷ [])
  push-IsApart d ds e h = go ds (none_differ (path d) ds e) h
    where
      go : (es : List D) → All (Differs (path d)) es → IsApart es → IsApart (es ++ d ∷ [])
      go [] n h = (tt, tt)
      go (f ∷ es) n h =
          (All-append (λ e. rel (path e) (path f) ≡ false) es _ h.0 (n.0, tt), go es n.1 h.1)

  pub remove-IsApart :
      (test : D → Bool) (ds : List D) → IsApart ds → IsApart (remove_device test ds)
  unfolding remove_device
  remove-IsApart test [] h = tt
  remove-IsApart test (d ∷ ds) h = elim (Bool-cases (test d)) [
    | inl e ↦ rw e h.1
    | inr e ↦ rw e (
      remove_device-All (λ e. rel (path e) (path d) ≡ false) test ds h.0,
      remove-IsApart test ds h.1,
    )
  ]

  pub put-IsApart :
      (test : D → Bool) (d d' : D) (ds : List D)
      → get_device test ds ≡ some d
      → path d' ≡ path d
      → IsApart ds
      → IsApart (put_device test d' ds)
  unfolding put_device get_device
  put-IsApart test d d' [] g e h = tt
  put-IsApart test d d' (f ∷ ds) g e h = elim (Bool-cases (test f)) [
    | inl t ↦ rw t (
        let same : path d' ≡ path f = e ∙ sym (ap path (found t g)) in
        (subst (λ p. All (λ e. rel (path e) p ≡ false) ds) (sym same) h.0, h.1))
    | inr t ↦ rw t (
        let g' = behind t g in
        let P = λ (e : D). rel (path e) (path f) ≡ false in
        let differs : P d = subst (Each P) g' (get_device-Each P test ds h.0) in
        (put_device-All P test d' ds (rw e differs) h.0, put-IsApart test d d' ds g' e h.1))
  ]
    where
      found : test f ≡ true → (if test f then some f else get_device test ds) ≡ some d → f ≡ d
      found t g = cc (ap (λ b. if b then some f else get_device test ds) t, g)

      behind :
          test f ≡ false
          → (if test f then some f else get_device test ds) ≡ some d
          → get_device test ds ≡ some d
      behind t g = sym (ap (λ b. if b then some f else get_device test ds) t) ∙ g

  -- An entry is found, and removed, by its own path.
  at_end :
      (d f : D) (es after : List D)
      → All (λ e. rel (path e) (path f) ≡ false) (es ++ d ∷ after)
      → rel (path d) (path f) ≡ false
  at_end d f [] after k = k.0
  at_end d f (e ∷ es) after k = at_end d f es after k.1

  pub get_own :
      ((p : String) → rel p p ≡ true)
      → (before after : List D) (d : D) → IsApart (before ++ d ∷ after)
      → get_device (has (path d)) (before ++ d ∷ after) ≡ some d
  unfolding get_device
  get_own own [] after d h = rw (own (path d)) refl
  get_own own (f ∷ before) after d h =
      rw (at_end d f before after h.0, get_own own before after d h.1) refl

  pub remove_own :
      ((p : String) → rel p p ≡ true)
      → (before after : List D) (d : D) → IsApart (before ++ d ∷ after)
      → remove_device (has (path d)) (before ++ d ∷ after) ≡ before ++ after
  unfolding remove_device
  remove_own own [] after d h = rw (own (path d)) refl
  remove_own own (f ∷ before) after d h =
      rw (at_end d f before after h.0, remove_own own before after d h.1) refl

pub own_path : (p : String) → starts_with p p ≡ true
own_path p = subst (λ s. starts_with s p ≡ true) (append-nil p) (starts_with-append p "")
