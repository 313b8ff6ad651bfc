-- ===== src/Utils/Args.antt =====
-- splitArgs and runCommand of utils/PdmUtils.cpp.
use text.Mathlib.TextLemmas.{cons-append, nil-append}
use com_webos_service_pdm.Prelude.{
  ap, ◌∙◌, ◌↔◌, ℕ, zero, suc, String, Char, true, false, ◌≡◌, refl, List, [], ◌∷◌, Option, none,
  some, pos, arith, append, is_empty, All, if◌then◌else◌, Bool-cases, inl, inr,
}
use com_webos_service_pdm.Utils.{
  is_space, split_args, command_word, run_status, cons_first, starts_word, run_command, wait_loop,
  Child, End, fork_failed, forked, exited, signaled, wait_error, stopped, end_status,
}

-- A text with no white space in it.
abbrev pub IsSolid : String → Type 0
IsSolid String.[] = Unit {0}
IsSolid (String.◌∷◌ c s) = (is_space c ≡ false) × IsSolid s

abbrev pub IsWord : String → Type 0
IsWord w = (is_empty w ≡ false) × IsSolid w

-- The characters that are not white space.
pub squeeze : String → String
squeeze String.[] = String.[]
squeeze (String.◌∷◌ c s) = if is_space c then squeeze s else String.◌∷◌ c (squeeze s)

pub concat : List String → String
concat [] = String.[]
concat (w ∷ ws) = append w (concat ws)

cons_first-IsWord :
    (c : Char) (ws : List String)
    → is_space c ≡ false
    → All IsWord ws
    → All IsWord (cons_first c ws)
cons_first-IsWord c [] e h = ((refl, (e, tt)), tt)
cons_first-IsWord c (w ∷ ws) e h = ((refl, (e, h.0.1)), h.1)

-- A text without quoting is cut into words: none is empty or has white space in it.
split_args-IsWord : (s : String) → All IsWord (split_args s)
unfolding split_args
split_args-IsWord String.[] = tt
split_args-IsWord (String.◌∷◌ c s) = elim (Bool-cases (is_space c)) [
  | inl e ↦ rw e (split_args-IsWord s)
  | inr e ↦ elim (Bool-cases (starts_word s)) [
    | inl f ↦ rw (e, f) (cons_first-IsWord c (split_args s) e (split_args-IsWord s))
    | inr f ↦ rw (e, f) ((refl, (e, tt)), split_args-IsWord s)
  ]
]

concat-cons_first :
    (c : Char) (ws : List String) → concat (cons_first c ws) ≡ String.◌∷◌ c (concat ws)
unfolding concat
concat-cons_first c [] = rw (cons-append c "" "", nil-append "")
concat-cons_first c (w ∷ ws) = cons-append c w (concat ws)

single_char : (c : Char) (t : String) → append (String.◌∷◌ c String.[]) t ≡ String.◌∷◌ c t
single_char c t = cons-append c String.[] t ∙ ap (String.◌∷◌ c) (nil-append t)

-- The words hold every character that is not white space, in order.
concat-split_args : (s : String) → concat (split_args s) ≡ squeeze s
unfolding split_args concat squeeze
concat-split_args String.[] = refl
concat-split_args (String.◌∷◌ c s) = elim (Bool-cases (is_space c)) [
  | inl e ↦ rw e (concat-split_args s)
  | inr e ↦ elim (Bool-cases (starts_word s)) [
    | inl f ↦
        rw (e, f) (concat-cons_first c (split_args s) ∙ ap (String.◌∷◌ c) (concat-split_args s))
    | inr f ↦
        rw (e, f) (single_char c (concat (split_args s)) ∙ ap (String.◌∷◌ c) (concat-split_args s))
  ]
]

split_args-append :
    (w : String) (c : Char) (s : String)
    → IsWord w
    → is_space c ≡ true
    → split_args (append w (String.◌∷◌ c s)) ≡ w ∷ split_args s
unfolding split_args starts_word
split_args-append String.[] c s h e = cc (h.0)
split_args-append (String.◌∷◌ d String.[]) c s h e = rw (single_char d (String.◌∷◌ c s), h.1.0, e)
split_args-append (String.◌∷◌ d (String.◌∷◌ x w)) c s h e =
    let rest =
      rw (cons-append x w (String.◌∷◌ c s)) at
        (split_args-append (String.◌∷◌ x w) c s (refl, h.1.1) e) in
    rw
      (
        cons-append d (String.◌∷◌ x w) (String.◌∷◌ c s),
        cons-append x w (String.◌∷◌ c s),
        h.1.0,
        h.1.1.0,
      )
      (ap (cons_first d) (rw h.1.1.0 at rest))

-- A text that has each word behind the other, with one separator after each.
pub join : Char → List String → String
join c [] = String.[]
join c (w ∷ ws) = append w (String.◌∷◌ c (join c ws))

-- Words that are joined by a white space come back unchanged.
split_args-join :
    (c : Char) (ws : List String) → is_space c ≡ true → All IsWord ws → split_args (join c ws) ≡ ws
unfolding join split_args
split_args-join c [] e h = refl
split_args-join c (w ∷ ws) e h =
    split_args-append w c (join c ws) h.0 e ∙ ap (◌∷◌ w) (split_args-join c ws e h.1)

-- Any text is cut into words that are not empty and hold no white space, and the words in their
-- order hold all of its other characters.
split_args_words : (s : String) → All IsWord (split_args s) × (concat (split_args s) ≡ squeeze s)
split_args_words s = (split_args-IsWord s, concat-split_args s)

wait_loop_end : (k : ℕ) (e : End) → wait_loop k e ≡ end_status e
unfolding wait_loop
wait_loop_end zero e = refl
wait_loop_end (suc k) e = wait_loop_end k e

status_zero :
    (o : Option String) (ch : Child)
    → run_status o ch ≡ pos 0
    → (w : String) × (k : ℕ) × (o ≡ some w) × (ch ≡ forked k (exited 0))
status_zero none ch h = cc
status_zero (some w) fork_failed h = cc
status_zero (some w) (forked k (exited n)) h =
    (w, k, refl, ground (arith, wait_loop_end k (exited n)))
status_zero (some w) (forked k (signaled n)) h =
    absurd (ground (arith, wait_loop_end k (signaled n)))
status_zero (some w) (forked k wait_error) h = absurd (cc (wait_loop_end k wait_error))
status_zero (some w) (forked k stopped) h = absurd (cc (wait_loop_end k stopped))

-- The status is 0 exactly if a child was forked for a command with a name and exited with status 0,
-- however often the wait for it was interrupted.
run_command-eq-zero :
    (child : List String → Child) (argv : List String)
    → (run_command child argv ≡ pos 0)
      ↔ ((w : String) × (k : ℕ) × (command_word argv ≡ some w) × (child argv ≡ forked k (exited 0)))
unfolding run_command
run_command-eq-zero child argv = (
  status_zero (command_word argv) (child argv),
  λ h. rw (h.2, h.3) (wait_loop_end h.1 (exited 0)),
)
