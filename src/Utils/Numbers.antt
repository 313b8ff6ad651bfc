-- ===== src/Utils/Numbers.antt =====
-- toInt of utils/PdmUtils.cpp: what it reads, and that it stays in the range of an int.
use text.Mathlib.TextLemmas.{cons-append, nil-append}
use native.Mathlib.Nat.{pow-suc}
use mathlib.Core.Path.{ap}
use com_webos_service_pdm.Prelude.{
  ℕ, suc, ◌+◌, ◌-◌, ◌*◌, ◌^◌, ◌==◌, String, Char, code, Bool, true, false, ◌≡◌, refl, ◌∙◌, arith,
  append, if◌then◌else◌, Bool-cases, inl, inr, Option, none, some, ℤ, pos, negsuc, ◌≤ℤ◌, leb, sub_ℕ,
}
use com_webos_service_pdm.Utils.Trim.{IsBlank}
use com_webos_service_pdm.Utils.{
  is_space, is_digit, ltrim_string, read_digits, starts_digit, in_int, int_max, read_signed,
  read_sign, stoi, or_default, to_int_or,
}

-- The range of a 32-bit int.
abbrev pub IsInt : ℤ → Type 0
IsInt n = (negsuc int_max ≤ℤ n) × (n ≤ℤ pos int_max)

abbrev IsIntOr : Option ℤ → Type 0
IsIntOr none = Unit {0}
IsIntOr (some n) = IsInt n

in_int-IsIntOr : (minus : Bool) (m : ℕ) → IsIntOr (in_int minus m)
unfolding in_int
in_int-IsIntOr true m = elim (Bool-cases (leb m (int_max + 1))) [
  | inl e ↦ rw e (ground arith, ground arith)
  | inr e ↦ rw e tt
]
in_int-IsIntOr false m = elim (Bool-cases (leb m int_max)) [
  | inl e ↦ rw e (ground arith, ground arith)
  | inr e ↦ rw e tt
]

-- A text of decimal digits.
abbrev pub IsDecimal : String → Type 0
IsDecimal String.[] = Unit {0}
IsDecimal (String.◌∷◌ c s) = (is_digit c ≡ true) × IsDecimal s

-- Its value, each digit by its place.
abbrev pub digits_length : String → ℕ
digits_length String.[] = 0
digits_length (String.◌∷◌ c s) = suc (digits_length s)

abbrev pub decimal_value : String → ℕ
decimal_value String.[] = 0
decimal_value (String.◌∷◌ c s) = (code c - 48) * 10 ^ digits_length s + decimal_value s

horner : (a d p v : ℕ) → (a * 10 + d) * p + v ≡ a * (p * 10) + (d * p + v)
horner a d p v = omega arith

read_digits_value :
    (acc : ℕ) (s rest : String)
    → IsDecimal s
    → starts_digit rest ≡ false
    → read_digits acc (append s rest) ≡ acc * 10 ^ digits_length s + decimal_value s
unfolding read_digits starts_digit
read_digits_value acc String.[] String.[] h e = omega arith
read_digits_value acc String.[] (String.◌∷◌ c rest) h e =
    rw (nil-append (String.◌∷◌ c rest), e) (omega arith)
read_digits_value acc (String.◌∷◌ c s) rest h e =
    rw (cons-append c s rest, h.0)
      (read_digits_value (acc * 10 + (code c - 48)) s rest h.1 e
        ∙ rw (pow-suc 10 (digits_length s))
            (horner acc (code c - 48) (10 ^ digits_length s) (decimal_value s)))

read_signed_decimal :
    (minus : Bool) (c : Char) (s rest : String)
    → IsDecimal (String.◌∷◌ c s)
    → starts_digit rest ≡ false
    → read_signed minus (append (String.◌∷◌ c s) rest)
      ≡ in_int minus (decimal_value (String.◌∷◌ c s))
unfolding read_signed starts_digit
read_signed_decimal minus c s rest h e =
    let read = rw (cons-append c s rest) at (read_digits_value 0 (String.◌∷◌ c s) rest h e) in
    rw (cons-append c s rest, h.0) (ap (in_int minus) (read ∙ omega arith))

ltrim_string-blank :
    (left s : String) → IsBlank left → ltrim_string (append left s) ≡ ltrim_string s
unfolding ltrim_string
ltrim_string-blank String.[] s h = rw (nil-append s)
ltrim_string-blank (String.◌∷◌ c left) s h =
    rw (cons-append c left s, h.0) (ltrim_string-blank left s h.1)

ltrim_string-cons :
    (c : Char) (s : String) → is_space c ≡ false → ltrim_string (String.◌∷◌ c s) ≡ String.◌∷◌ c s
unfolding ltrim_string
ltrim_string-cons c s e = rw e

digit_not_space :
    (c : Char)
    → is_digit c ≡ true
    → (is_space c ≡ false) × ((code c == b'-') ≡ false) × ((code c == b'+') ≡ false)
unfolding is_digit is_space
digit_not_space c h = (ground arith, ground arith, ground arith)

minus_not_space : (c : Char) → (code c == b'-') ≡ true → is_space c ≡ false
unfolding is_space
minus_not_space c h = ground arith

to_int_or-stoi : (s : String) (d : ℤ) → to_int_or s d ≡ or_default d (stoi s)
unfolding to_int_or
to_int_or-stoi String.[] d = refl
to_int_or-stoi (String.◌∷◌ c s) d = refl

read_sign_digit :
    (c : Char) (s : String)
    → is_digit c ≡ true
    → read_sign (String.◌∷◌ c s) ≡ read_signed false (String.◌∷◌ c s)
unfolding read_sign
read_sign_digit c s h = let (_, m, p) = digit_not_space c h in rw (m, p)

stoi_decimal :
    (left : String) (c : Char) (s rest : String)
    → IsBlank left
    → IsDecimal (String.◌∷◌ c s)
    → starts_digit rest ≡ false
    → stoi (append left (append (String.◌∷◌ c s) rest))
      ≡ in_int false (decimal_value (String.◌∷◌ c s))
unfolding stoi
stoi_decimal left c s rest blank h e =
    rw
      (
        ltrim_string-blank left (append (String.◌∷◌ c s) rest) blank,
        cons-append c s rest,
        ltrim_string-cons c (append s rest) (digit_not_space c h.0).0,
        read_sign_digit c (append s rest) h.0,
      )
      (rw (cons-append c s rest) at (read_signed_decimal false c s rest h e))

stoi_minus :
    (left : String) (m c : Char) (s rest : String)
    → IsBlank left
    → (code m == b'-') ≡ true
    → IsDecimal (String.◌∷◌ c s)
    → starts_digit rest ≡ false
    → stoi (append left (String.◌∷◌ m (append (String.◌∷◌ c s) rest)))
      ≡ in_int true (decimal_value (String.◌∷◌ c s))
unfolding stoi read_sign
stoi_minus left m c s rest blank minus h e =
    rw (ltrim_string-blank left _ blank, ltrim_string-cons m _ (minus_not_space m minus), minus)
      (read_signed_decimal true c s rest h e)

in_int_or :
    (d : ℤ) (v : ℕ)
    → (or_default d (in_int false v) ≡ (if leb v int_max then pos v else d))
      × (or_default d (in_int true v) ≡ (if leb v (int_max + 1) then sub_ℕ 0 v else d))
unfolding in_int
in_int_or d v = (ground arith, ground arith)

-- A number in decimal digits, behind white space and in front of anything that is no digit, is read
-- at its value, with or without a minus sign; a number that an int cannot hold gives the default.
pub to_int_or_decimal :
    (left : String) (m c : Char) (s rest : String) (d : ℤ)
    → IsBlank left
    → (code m == b'-') ≡ true
    → IsDecimal (String.◌∷◌ c s)
    → starts_digit rest ≡ false
    → let v = decimal_value (String.◌∷◌ c s) in
      let number = append (String.◌∷◌ c s) rest in
      (to_int_or (append left number) d ≡ (if leb v int_max then pos v else d))
      × (to_int_or (append left (String.◌∷◌ m number)) d
          ≡ (if leb v (int_max + 1) then sub_ℕ 0 v else d))
to_int_or_decimal left m c s rest d blank minus h e =
    let (plain, negated) = in_int_or d (decimal_value (String.◌∷◌ c s)) in
    (
      to_int_or-stoi _ d ∙ ap (or_default d) (stoi_decimal left c s rest blank h e) ∙ plain,
      to_int_or-stoi _ d ∙ ap (or_default d) (stoi_minus left m c s rest blank minus h e) ∙ negated,
    )

or_default-IsInt : (d : ℤ) (r : Option ℤ) → IsInt d → IsIntOr r → IsInt (or_default d r)
or_default-IsInt d none h k = h
or_default-IsInt d (some n) h k = k

read_signed-IsIntOr : (minus : Bool) (s : String) → IsIntOr (read_signed minus s)
unfolding read_signed
read_signed-IsIntOr minus s = elim (Bool-cases (starts_digit s)) [
  | inl e ↦ rw e (in_int-IsIntOr minus (read_digits 0 s))
  | inr e ↦ rw e tt
]

read_sign-IsIntOr : (s : String) → IsIntOr (read_sign s)
unfolding read_sign
read_sign-IsIntOr String.[] = tt
read_sign-IsIntOr (String.◌∷◌ c s) = elim (Bool-cases (code c == b'-')) [
  | inl e ↦ rw e (read_signed-IsIntOr true s)
  | inr e ↦ elim (Bool-cases (code c == b'+')) [
    | inl f ↦ rw (e, f) (read_signed-IsIntOr false s)
    | inr f ↦ rw (e, f) (read_signed-IsIntOr false (String.◌∷◌ c s))
  ]
]

-- Whatever the text, the result is an int, if the default is one.
to_int_or-IsInt : (s : String) (d : ℤ) → IsInt d → IsInt (to_int_or s d)
unfolding stoi
to_int_or-IsInt s d h =
    rw (to_int_or-stoi s d) (or_default-IsInt d (stoi s) h (read_sign-IsIntOr (ltrim_string s)))
