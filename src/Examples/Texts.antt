-- ===== src/Examples/Texts.antt =====
-- The theorems on texts, numbers, commands and device classes at concrete inputs.
use com_webos_service_pdm.DeviceClass.{Props, contains, get_prop}
use com_webos_service_pdm.DeviceClass.Factory.{create}
use com_webos_service_pdm.DeviceClass.Factory.Subsystems.{
  default, sound, hid, mtp, registered, Claimed, create-Claimed,
}
use com_webos_service_pdm.Prelude.{◌≡◌, refl, [], ◌∷◌, pos, leb, ◌+◌, sub_ℕ, if◌then◌else◌}
use com_webos_service_pdm.Utils.{to_int_or, int_max, is_space, starts_digit, is_digit}
use com_webos_service_pdm.Utils.Numbers.{decimal_value, to_int_or_decimal}

to_int_or_decimal_example :
    let v = decimal_value "512" in
    (to_int_or " 512 MB" (pos 0) ≡ (if leb v int_max then pos v else pos 0))
    × (to_int_or " -512 MB" (pos 0) ≡ (if leb v (int_max + 1) then sub_ℕ 0 v else pos 0))
unfolding is_digit is_space starts_digit
to_int_or_decimal_example =
    to_int_or_decimal " " "-" "5" "12" " MB" (pos 0) (refl, tt) refl (refl, (refl, (refl, tt))) refl

abbrev keyboard : Props
keyboard = ("ID_USB_INTERFACES", ":030101:") ∷ []

create-Claimed_example : Claimed (default ∷ sound ∷ hid ∷ mtp ∷ []) keyboard "input"
unfolding create registered contains get_prop
create-Claimed_example = create-Claimed (default ∷ sound ∷ hid ∷ mtp ∷ []) keyboard "input" refl
