-- ===== src/Utils.antt =====
-- utils/PdmUtils.cpp: the text helpers, the number parser and the command runner.
-- The environment's part of `run_command` (fork, exec, waitpid) is the argument of type `Child`.
pub mod Trim
pub mod Numbers
pub mod Args
use com_webos_service_pdm.Prelude.{
  ℕ, zero, suc, ◌+◌, ◌-◌, ◌*◌, ◌==◌, String, Char, code, Bool, true, false, not, ◌&&◌, ◌||◌, Option,
  none, some, List, [], ◌∷◌, ℤ, pos, negsuc, sub_ℕ, leb, if◌then◌else◌, is_empty,
}

-- std::isspace in the classic locale: space, \t, \n, \v, \f, \r.
unfoldable pub is_space : Char → Bool
is_space c = code c == 32 || (leb 9 (code c) && leb (code c) 13)

pub ltrim_string : String → String
ltrim_string String.[] = String.[]
ltrim_string (String.◌∷◌ c s) = if is_space c then ltrim_string s else String.◌∷◌ c s

pub rtrim_string : String → String
rtrim_string String.[] = String.[]
rtrim_string (String.◌∷◌ c s) =
    let rest = rtrim_string s in
    if is_empty rest && is_space c then String.[] else String.◌∷◌ c rest

pub trim_string : String → String
trim_string s = ltrim_string (rtrim_string s)

-- The text before the first ':' and the text behind it.
abbrev pub cons_left : Char → Option (String × String) → Option (String × String)
cons_left c none = none
cons_left c (some (a, b)) = some (String.◌∷◌ c a, b)

pub split_at_colon : String → Option (String × String)
split_at_colon String.[] = none
split_at_colon (String.◌∷◌ c s) =
    let rest = cons_left c (split_at_colon s) in
    if code c == b':' then some (String.[], s) else rest

pub split_string_in_two : String → String × String
unfolding trim_string split_at_colon
split_string_in_two s = elim (split_at_colon s) [
  | none ↦ (trim_string s, trim_string String.[])
  | some (a, b) ↦ (trim_string a, trim_string b)
]

unfoldable pub is_digit : Char → Bool
is_digit c = leb 48 (code c) && leb (code c) 57

pub read_digits : ℕ → String → ℕ
read_digits acc String.[] = acc
read_digits acc (String.◌∷◌ c s) =
    if is_digit c then read_digits (acc * 10 + (code c - 48)) s else acc

unfoldable pub starts_digit : String → Bool
starts_digit String.[] = false
starts_digit (String.◌∷◌ c s) = is_digit c

abbrev pub int_max : ℕ
int_max = 2147483647

-- An int holds -(int_max + 1) to int_max.
in_int : Bool → ℕ → Option ℤ
in_int true m = if leb m (int_max + 1) then some (sub_ℕ 0 m) else none
in_int false m = if leb m int_max then some (pos m) else none

read_signed : Bool → String → Option ℤ
unfolding in_int
read_signed minus s = if starts_digit s then in_int minus (read_digits 0 s) else none

read_sign : String → Option ℤ
unfolding read_signed
read_sign String.[] = none
read_sign (String.◌∷◌ c s) =
    if code c == b'-'
    then read_signed true s
    else if code c == b'+'
    then read_signed false s
    else read_signed false (String.◌∷◌ c s)

-- std::stoi in base 10; `none` where it throws.
pub stoi : String → Option ℤ
unfolding read_sign
stoi s = read_sign (ltrim_string s)

abbrev pub or_default : ℤ → Option ℤ → ℤ
or_default d none = d
or_default d (some n) = n

unfoldable pub to_int_or : String → ℤ → ℤ
unfolding stoi is_space is_digit ltrim_string read_digits starts_digit
to_int_or s default_value = if is_empty s then default_value else or_default default_value (stoi s)

unfoldable pub to_int : String → ℤ
unfolding to_int_or
to_int s = to_int_or s (pos 0)

starts_word : String → Bool
starts_word String.[] = false
starts_word (String.◌∷◌ c s) = not (is_space c)

abbrev pub cons_first : Char → List String → List String
cons_first c [] = String.◌∷◌ c String.[] ∷ []
cons_first c (w ∷ ws) = String.◌∷◌ c w ∷ ws

-- The words that `stream >> arg` reads one after another.
unfoldable pub split_args : String → List String
unfolding is_space starts_word
split_args String.[] = []
split_args (String.◌∷◌ c s) =
    let ws = split_args s in
    if is_space c
    then ws
    else if starts_word s
    then cons_first c ws
    else String.◌∷◌ c String.[] ∷ ws

-- How a forked child ends, and how often waitpid() is interrupted before it says so.
pub data End : Type 0 where
  wait_error stopped : End
  exited signaled : ℕ → End

pub data Child : Type 0 where
  fork_failed : Child
  forked : ℕ → End → Child

abbrev pub end_status : End → ℤ
end_status wait_error = negsuc 0
end_status (exited n) = pos n
end_status (signaled n) = pos (128 + n)
end_status stopped = negsuc 0

-- The waitpid() loop: an interruption (EINTR) waits again.
unfoldable pub wait_loop : ℕ → End → ℤ
wait_loop zero e = end_status e
wait_loop (suc interruptions) e = wait_loop interruptions e

abbrev pub child_status : Child → ℤ
child_status fork_failed = negsuc 0
child_status (forked interruptions e) = wait_loop interruptions e

-- The words with which a child is started; `none` where no child is forked.
unfoldable pub command_word : List String → Option String
command_word [] = none
command_word (word ∷ args) = if is_empty word then none else some word

abbrev pub run_status : Option String → Child → ℤ
run_status none ch = negsuc 0
run_status (some word) ch = child_status ch

unfoldable pub run_command : (List String → Child) → List String → ℤ
run_command child argv = run_status (command_word argv) (child argv)
