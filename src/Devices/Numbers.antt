-- ===== src/Devices/Numbers.antt =====
-- std::to_string of an int, and an int behind std::setfill('0') and std::setw(3).
use com_webos_service_pdm.Prelude.{
  ℕ, zero, suc, ◌+◌, ◌/◌, ◌%◌, ltb, ◌==◌, String, ℤ, pos, negsuc, append, if◌then◌else◌,
}

digit : ℕ → String
digit n =
    if n == 0
    then "0"
    else if n == 1
    then "1"
    else if n == 2
    then "2"
    else if n == 3
    then "3"
    else if n == 4
    then "4"
    else if n == 5
    then "5"
    else if n == 6
    then "6"
    else if n == 7
    then "7"
    else if n == 8
    then "8"
    else "9"

-- One round for each digit, and a number has no more digits than itself and one.
digits : ℕ → ℕ → String → String
unfolding digit
digits zero n s = s
digits (suc fuel) n s =
    let rest = digits fuel (n / 10) (append (digit (n % 10)) s) in
    if ltb n 10 then append (digit n) s else rest

unfoldable pub to_string : ℤ → String
unfolding digits
to_string (pos n) = digits (n + 1) n ""
to_string (negsuc n) = append "-" (digits (n + 2) (n + 1) "")

-- setfill pads in front, before the sign too.
unfoldable pub to_string_width3 : ℤ → String
unfolding to_string
to_string_width3 (pos n) =
    if ltb n 10
    then append "00" (to_string (pos n))
    else if ltb n 100
    then append "0" (to_string (pos n))
    else to_string (pos n)
to_string_width3 (negsuc n) =
    if ltb n 9 then append "0" (to_string (negsuc n)) else to_string (negsuc n)
