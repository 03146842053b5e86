-- ===== src/Shell/Tokens/Redirection.antt =====
-- myshell.c, `checkIOParser`: what it makes of a command with redirections.
use decs.Base.Int.{ltb_ℤ, pos}
use decs.Base.Words.{to_int}
use decs.Shell.Tokens.{
  output_comes_first, check_io_parser, redirect, less, greater, tokenize_commands_and_arguments,
}
use decs.Shell.Strings.{Str, before, behind, strtok, strrchr, strtok_from, skip, or_empty}
use decs.Base.{
  ℕ, refl, All, ◌++◌, ◌≡◌, ◌∷◌, ◌==◌, arith, some, none, [], false, length, Option, ◌<◌, true, ◌^◌,
  ap, ltb, ◌∙◌, ◌+◌, ◌-◌, ◌%◌,
}

-- The character does not occur in the string.
abbrev pub Lacks : ℕ → Str → Type 0
Lacks d = All (λ c. (c == d) ≡ false)

pub before-append : (d : ℕ) (s t : Str) → Lacks d s → before d (s ++ d ∷ t) ≡ s
unfolding before
before-append d [] t h = ground arith
before-append d (c ∷ s) t h = rw (h.0, before-append d s t h.1) refl

pub behind-append : (d : ℕ) (s t : Str) → Lacks d s → behind d (s ++ d ∷ t) ≡ some t
unfolding behind
behind-append d [] t h = ground arith
behind-append d (c ∷ s) t h = rw (h.0, behind-append d s t h.1) refl

before_all : (d : ℕ) (s : Str) → Lacks d s → before d s ≡ s
unfolding before
before_all d [] h = refl
before_all d (c ∷ s) h = rw (h.0, before_all d s h.1) refl

behind_absent : (d : ℕ) (s : Str) → Lacks d s → behind d s ≡ none
unfolding behind
behind_absent d [] h = refl
behind_absent d (c ∷ s) h = rw (h.0, behind_absent d s h.1) refl

-- `strtok` on a string that starts with another character, up to the first delimiter
pub strtok-append :
    (d c : ℕ) (s t saved : Str)
    → Lacks d (c ∷ s)
    → strtok d (some ((c ∷ s) ++ d ∷ t)) saved ≡ (some (c ∷ s), t)
unfolding strtok strtok_from skip before behind or_empty
strtok-append d c s t saved h = rw (h.0, before-append d s t h.1, behind-append d s t h.1, h.0) refl

pub strtok_last :
    (d c : ℕ) (s saved : Str) → Lacks d (c ∷ s) → strtok d (some (c ∷ s)) saved ≡ (some (c ∷ s), [])
unfolding strtok strtok_from skip before behind or_empty
strtok_last d c s saved h = rw (h.0, before_all d s h.1, behind_absent d s h.1, h.0) refl

pub strtok_resumed :
    (d c : ℕ) (s : Str) → Lacks d (c ∷ s) → strtok d none (c ∷ s) ≡ (some (c ∷ s), [])
unfolding strtok
strtok_resumed d c s h = strtok_last d c s [] h

pub strrchr_absent : (d : ℕ) (s : Str) → Lacks d s → strrchr d s ≡ none
unfolding strrchr
strrchr_absent d [] h = refl
strrchr_absent d (c ∷ s) h = rw (strrchr_absent d s h.1, h.0) refl

-- The last delimiter is the one that no other follows.
pub strrchr-append : (d : ℕ) (s t : Str) → Lacks d t → strrchr d (s ++ d ∷ t) ≡ some (d ∷ t)
unfolding strrchr
strrchr-append d [] t h = rw (strrchr_absent d t h) (ground arith)
strrchr-append d (c ∷ s) t h = rw (strrchr-append d s t h) refl

-- A delimiter in the rest of a string is not before it.
pub strrchr-behind : (d : ℕ) (s t u : Str) → strrchr d t ≡ some u → strrchr d (s ++ t) ≡ some u
unfolding strrchr
strrchr-behind d [] t u h = h
strrchr-behind d (c ∷ s) t u h = rw (strrchr-behind d s t u h) refl

pub Lacks-append :
    (d e : ℕ) (s t : Str) → Lacks d s → (e == d) ≡ false → Lacks d t → Lacks d (s ++ e ∷ t)
Lacks-append d e [] t h n k = (n, k)
Lacks-append d e (c ∷ s) t h n k = (h.0, Lacks-append d e s t h.1 n k)

sign_of_difference :
    (m n : ℕ)
    → m < 2 ^ 31
    → n < 2 ^ 31
    → ltb_ℤ (pos 0) (to_int ((n + (2 ^ 64 - m)) % 2 ^ 64)) ≡ ltb m n
sign_of_difference m n hm hn = ground arith

-- The difference of the lengths, cast to `int`, has the sign of the true difference.
pub output_comes_first_lem :
    (i o : Str)
    → length i < 2 ^ 31
    → length o < 2 ^ 31
    → output_comes_first i o ≡ ltb (length i) (length o)
unfolding output_comes_first
output_comes_first_lem i o hi ho = sign_of_difference (length i) (length o) hi ho

pub check_io_parser_lem :
    (s : Str) (i o : Option Str)
    → strrchr less s ≡ i
    → strrchr greater s ≡ o
    → check_io_parser (some s) ≡ redirect s i o
unfolding check_io_parser
check_io_parser_lem s i o hi ho =
    ap (λ x. redirect s x (strrchr greater s)) hi ∙ ap (redirect s i) ho

pub redirect_input :
    (s i : Str) (a b : Option Str × Str)
    → strtok less (some s) [] ≡ a
    → strtok less none a.1 ≡ b
    → redirect s (some i) none ≡ tokenize_commands_and_arguments a.0 b.0 none
unfolding redirect
redirect_input s i a b ha hb = rw (ha, hb) refl

pub redirect_output :
    (s o : Str) (a b : Option Str × Str)
    → strtok greater (some s) [] ≡ a
    → strtok greater none a.1 ≡ b
    → redirect s none (some o) ≡ tokenize_commands_and_arguments a.0 none b.0
unfolding redirect
redirect_output s o a b ha hb = rw (ha, hb) refl

pub redirect_input_output :
    (s i o : Str) (a temp b c : Option Str × Str)
    → output_comes_first i o ≡ false
    → strtok less (some s) [] ≡ a
    → strtok less none a.1 ≡ temp
    → strtok greater temp.0 temp.1 ≡ b
    → strtok greater none b.1 ≡ c
    → redirect s (some i) (some o) ≡ tokenize_commands_and_arguments a.0 b.0 c.0
unfolding redirect
redirect_input_output s i o a temp b c h ha ht hb hc = rw (h, ha, ht, hb, hc) refl

pub redirect_output_input :
    (s i o : Str) (a temp b c : Option Str × Str)
    → output_comes_first i o ≡ true
    → strtok greater (some s) [] ≡ a
    → strtok greater none a.1 ≡ temp
    → strtok less temp.0 temp.1 ≡ b
    → strtok less none b.1 ≡ c
    → redirect s (some i) (some o) ≡ tokenize_commands_and_arguments a.0 c.0 b.0
unfolding redirect
redirect_output_input s i o a temp b c h ha ht hb hc = rw (h, ha, ht, hb, hc) refl
