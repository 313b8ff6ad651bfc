-- ===== src/Utils/Trim.antt =====
-- The trimmers and splitStringInTwo of utils/PdmUtils.cpp.
use text.Mathlib.TextLemmas.{append_assoc, cons-append, nil-append}
use com_webos_service_pdm.Prelude.{
  ◌==◌, String, Char, code, true, false, ◌&&◌, ◌≡◌, refl, ap, sym, ◌∙◌, append, is_empty,
  Bool-cases, inl, inr, none, some,
}
use com_webos_service_pdm.Utils.{
  is_space, ltrim_string, rtrim_string, trim_string, split_at_colon, split_string_in_two,
}

-- Nothing but white space.
abbrev pub IsBlank : String → Type 0
IsBlank String.[] = Unit {0}
IsBlank (String.◌∷◌ c s) = (is_space c ≡ true) × IsBlank s

-- The first character, if there is one, is not white space.
abbrev pub IsLeftTrimmed : String → Type 0
IsLeftTrimmed String.[] = Unit {0}
IsLeftTrimmed (String.◌∷◌ c s) = is_space c ≡ false

-- Nor is the last.
abbrev pub IsRightTrimmed : String → Type 0
IsRightTrimmed String.[] = Unit {0}
IsRightTrimmed (String.◌∷◌ c s) = ((is_empty s && is_space c) ≡ false) × IsRightTrimmed s

ltrim_string-IsLeftTrimmed : (s : String) → IsLeftTrimmed (ltrim_string s)
unfolding ltrim_string
ltrim_string-IsLeftTrimmed String.[] = tt
ltrim_string-IsLeftTrimmed (String.◌∷◌ c s) = elim (Bool-cases (is_space c)) [
  | inl e ↦ rw e (ltrim_string-IsLeftTrimmed s)
  | inr e ↦ rw e e
]

ltrim_string-IsRightTrimmed : (s : String) → IsRightTrimmed s → IsRightTrimmed (ltrim_string s)
unfolding ltrim_string
ltrim_string-IsRightTrimmed String.[] h = tt
ltrim_string-IsRightTrimmed (String.◌∷◌ c s) h = elim (Bool-cases (is_space c)) [
  | inl e ↦ rw e (ltrim_string-IsRightTrimmed s h.1)
  | inr e ↦ rw e h
]

rtrim_string-IsRightTrimmed : (s : String) → IsRightTrimmed (rtrim_string s)
unfolding rtrim_string
rtrim_string-IsRightTrimmed String.[] = tt
rtrim_string-IsRightTrimmed (String.◌∷◌ c s) =
    elim (Bool-cases (is_empty (rtrim_string s) && is_space c)) [
      | inl e ↦ rw e tt
      | inr e ↦ rw e (e, rtrim_string-IsRightTrimmed s)
    ]

ltrim_string_parts :
    (s : String) → (left : String) × IsBlank left × (s ≡ append left (ltrim_string s))
unfolding ltrim_string
ltrim_string_parts String.[] = (String.[], tt, refl)
ltrim_string_parts (String.◌∷◌ c s) = elim (Bool-cases (is_space c)) [
  | inl e ↦
      let (left, blank, parts) = ltrim_string_parts s in
      rw e (String.◌∷◌ c left, (e, blank), ap (String.◌∷◌ c) parts ∙ sym (cons-append c left _))
  | inr e ↦ rw e (String.[], tt, sym (nil-append _))
]

blank_cons :
    (c : Char) (r s right : String)
    → s ≡ append r right
    → (is_empty r && is_space c) ≡ true
    → (is_space c ≡ true) × (s ≡ right)
blank_cons c String.[] s right parts e = (e, parts ∙ nil-append right)
blank_cons c (String.◌∷◌ d r) s right parts e = cc

rtrim_string_parts :
    (s : String) → (right : String) × IsBlank right × (s ≡ append (rtrim_string s) right)
unfolding rtrim_string
rtrim_string_parts String.[] = (String.[], tt, refl)
rtrim_string_parts (String.◌∷◌ c s) =
    let (right, blank, parts) = rtrim_string_parts s in
    elim (Bool-cases (is_empty (rtrim_string s) && is_space c)) [
      | inl e ↦
          let (space, parts') = blank_cons c (rtrim_string s) s right parts e in
          rw e (String.◌∷◌ c right, (space, blank), ap (String.◌∷◌ c) parts' ∙ sym (nil-append _))
      | inr e ↦ rw e (right, blank, ap (String.◌∷◌ c) parts ∙ sym (cons-append c _ right))
    ]

-- What `trim_string` returns begins and ends with no white space, and is the text less white space
-- at its two ends.
pub record IsTrimOf (s t : String) : Type 0 where
  pub left : String
  pub right : String
  pub left_blank : IsBlank left
  pub right_blank : IsBlank right
  pub parts : s ≡ append left (append t right)
  pub no_left : IsLeftTrimmed t
  pub no_right : IsRightTrimmed t

-- Trimming takes away the white space at both ends of a text, all of it and nothing else.
trim_string-IsTrimOf : (s : String) → IsTrimOf s (trim_string s)
unfolding trim_string
trim_string-IsTrimOf s =
    let (right, right_blank, e) = rtrim_string_parts s in
    let (left, left_blank, e') = ltrim_string_parts (rtrim_string s) in
    record {
      left = left;
      right = right;
      left_blank = left_blank;
      right_blank = right_blank;
      parts = e ∙ ap (λ t. append t right) e' ∙ append_assoc left _ right;
      no_left = ltrim_string-IsLeftTrimmed (rtrim_string s);
      no_right = ltrim_string-IsRightTrimmed (rtrim_string s) (rtrim_string-IsRightTrimmed s);
    }

abbrev pub HasNoColon : String → Type 0
HasNoColon String.[] = Unit {0}
HasNoColon (String.◌∷◌ c s) = ((code c == b':') ≡ false) × HasNoColon s

split_at_colon_parts :
    (a b : String) (c : Char)
    → HasNoColon a
    → (code c == b':') ≡ true
    → split_at_colon (append a (String.◌∷◌ c b)) ≡ some (a, b)
unfolding split_at_colon
split_at_colon_parts String.[] b c h e = rw (nil-append (String.◌∷◌ c b), e)
split_at_colon_parts (String.◌∷◌ d a) b c h e =
    rw (cons-append d a (String.◌∷◌ c b), h.0, split_at_colon_parts a b c h.1 e)

split_at_colon-none : (a : String) → HasNoColon a → split_at_colon a ≡ none
unfolding split_at_colon
split_at_colon-none String.[] h = refl
split_at_colon-none (String.◌∷◌ c a) h = rw (h.0, split_at_colon-none a h.1)

-- A text is cut at its first colon and both parts are trimmed; with no colon, the second is empty.
split_string_in_two_parts :
    (a b : String) (c : Char)
    → HasNoColon a
    → (code c == b':') ≡ true
    → (split_string_in_two (append a (String.◌∷◌ c b)) ≡ (trim_string a, trim_string b))
      × (split_string_in_two a ≡ (trim_string a, trim_string ""))
unfolding split_string_in_two
split_string_in_two_parts a b c h e = (
  rw (split_at_colon_parts a b c h e, split_string_in_two),
  rw (split_at_colon-none a h, split_string_in_two),
)
