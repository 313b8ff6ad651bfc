-- ===== src/DeviceClass/Card.antt =====
-- SoundSubsystem::getCardNumber of framework/SoundSubsystem.cpp.
use text.Mathlib.TextLemmas.{cons-append, nil-append}
use com_webos_service_pdm.Prelude.{
  Char, ap, ◌∙◌, starts_with-append, String, true, false, ◌≡◌, refl, Option, none, some, append,
  starts_with, is_empty, if◌then◌else◌, Bool-cases, inl, inr,
}
use com_webos_service_pdm.Utils.{is_digit, starts_digit}
use com_webos_service_pdm.Utils.Numbers.{IsDecimal}
use com_webos_service_pdm.DeviceClass.{Props, get_prop}
use com_webos_service_pdm.DeviceClass.Factory.{erase_front}

-- What follows the last "/card" of a path.
unfoldable pub after_card : String → Option String
after_card String.[] = none
after_card (String.◌∷◌ c s) = elim (after_card s) [
  | some rest ↦ some rest
  | none ↦
      if starts_with (String.◌∷◌ c s) "/card" then some (erase_front 5 (String.◌∷◌ c s)) else none
]

take_digits : String → String
take_digits String.[] = String.[]
take_digits (String.◌∷◌ c s) =
    let rest = take_digits s in if is_digit c then String.◌∷◌ c rest else String.[]

abbrev card_digits : Option String → String
card_digits none = ""
card_digits (some rest) = take_digits rest

unfoldable pub get_card_number : Props → String
unfolding after_card take_digits
get_card_number p =
    let card_number = get_prop "CARD_NUMBER" p in
    if is_empty card_number then card_digits (after_card (get_prop "DEVPATH" p)) else card_number

take_digits-IsDecimal : (s : String) → IsDecimal (take_digits s)
unfolding take_digits
take_digits-IsDecimal String.[] = tt
take_digits-IsDecimal (String.◌∷◌ c s) = elim (Bool-cases (is_digit c)) [
  | inl e ↦ rw e (e, take_digits-IsDecimal s)
  | inr e ↦ rw e tt
]

erase_front-append : (t : String) → erase_front 5 (append "/card" t) ≡ t
unfolding erase_front
erase_front-append t = rw (
  cons-append "/" "card" t,
  cons-append "c" "ard" t,
  cons-append "a" "rd" t,
  cons-append "r" "d" t,
  cons-append "d" "" t,
  nil-append t,
)

after_card-cons :
    (c : Char) (s : String)
    → after_card s ≡ none
    → starts_with (String.◌∷◌ c s) "/card" ≡ true
    → after_card (String.◌∷◌ c s) ≡ some (erase_front 5 (String.◌∷◌ c s))
unfolding after_card
after_card-cons c s h e = rw (h, after_card) (rw e)

after_card-slash :
    (t : String) → after_card (append "card" t) ≡ none → after_card (append "/card" t) ≡ some t
after_card-slash t h =
    let slash = cons-append "/" "card" t in
    rw slash (
      after_card-cons "/" (append "card" t) h (rw slash at (starts_with-append "/card" t))
      ∙ ap some (rw slash at (erase_front-append t)))

after_card-append :
    (a t : String)
    → after_card (append "/card" t) ≡ some t
    → after_card (append a (append "/card" t)) ≡ some t
unfolding after_card
after_card-append String.[] t h = rw (nil-append (append "/card" t)) h
after_card-append (String.◌∷◌ c a) t h =
    rw (cons-append c a (append "/card" t), after_card-append a t h, after_card)

take_digits-append :
    (ds rest : String)
    → IsDecimal ds
    → starts_digit rest ≡ false
    → take_digits (append ds rest) ≡ ds
unfolding take_digits starts_digit
take_digits-append String.[] String.[] h e = refl
take_digits-append String.[] (String.◌∷◌ c rest) h e = rw (nil-append (String.◌∷◌ c rest), e)
take_digits-append (String.◌∷◌ c ds) rest h e =
    rw (cons-append c ds rest, h.0) (ap (String.◌∷◌ c) (take_digits-append ds rest h.1 e))

-- With no number property, the card number is the digits behind the last "/card" of the device
-- path, up to the first character that is no digit.
get_card_number_path :
    (p : Props) (a ds rest : String)
    → is_empty (get_prop "CARD_NUMBER" p) ≡ true
    → get_prop "DEVPATH" p ≡ append a (append "/card" (append ds rest))
    → IsDecimal ds
    → starts_digit rest ≡ false
    → after_card (append "card" (append ds rest)) ≡ none
    → get_card_number p ≡ ds
unfolding get_card_number
get_card_number_path p a ds rest none_given path decimal stop last =
    rw
      (
        none_given,
        path,
        after_card-append a (append ds rest) (after_card-slash (append ds rest) last),
      )
      (take_digits-append ds rest decimal stop)
