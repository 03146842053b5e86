-- ===== src/Shell/Strings/Words.antt =====
-- The words of a string, and that `strsep` and `strtok` of assignment 1/myshell.c find them.
use decs.Shell.Strings.{Str, before, behind, skip, or_empty, strtok_from, strtok}
use decs.Base.{
  ℕ, refl, Bool, Option, List, ◌≡◌, ◌∷◌, [], ◌==◌, Bool-cases, some, true, inl, false, none, inr,
  ap, ◌⊎◌, ◌∙◌, sym,
}

-- A word in front of others, unless it is empty.
unfoldable pub push : Str → List Str → List Str
push [] ws = ws
push (c ∷ w) ws = (c ∷ w) ∷ ws

unfoldable pub scan_step : Bool → ℕ → Str × List Str → Str × List Str
unfolding push
scan_step true c r = ([], push r.0 r.1)
scan_step false c r = (c ∷ r.0, r.1)

-- The word at the front, perhaps empty, and the words behind it.
unfoldable pub scan : ℕ → Str → Str × List Str
unfolding scan_step
scan d [] = ([], [])
scan d (c ∷ s) = scan_step (c == d) c (scan d s)

-- The longest runs of characters other than the delimiter, in order.
unfoldable pub words : ℕ → Str → List Str
unfolding push scan
words d s = push (scan d s).0 (scan d s).1

unfoldable pub words_of : ℕ → Option Str → List Str
unfolding words
words_of d none = []
words_of d (some s) = words d s

scan-before : (d : ℕ) (s : Str) → (scan d s).0 ≡ before d s
unfolding scan scan_step before
scan-before d [] = refl
scan-before d (c ∷ s) = elim (Bool-cases (c == d)) [
  | inl e ↦ rw e refl
  | inr e ↦ rw (e, scan-before d s) refl
]

scan-behind : (d : ℕ) (s : Str) → (scan d s).1 ≡ words_of d (behind d s)
unfolding scan scan_step behind words_of words
scan-behind d [] = refl
scan-behind d (c ∷ s) = elim (Bool-cases (c == d)) [
  | inl e ↦ rw e refl
  | inr e ↦ rw (e, scan-behind d s) refl
]

-- The first field of `strsep` is the first word or empty, and what it leaves has the other words.
pub words-strsep : (d : ℕ) (s : Str) → words d s ≡ push (before d s) (words_of d (behind d s))
unfolding words
words-strsep d s = rw (scan-before d s, scan-behind d s) refl

skip_out : (d c : ℕ) (s : Str) → (c == d) ≡ false → skip d (c ∷ s) ≡ c ∷ s
unfolding skip
skip_out d c s e = rw e refl

skip_in : (d c : ℕ) (s : Str) → (c == d) ≡ true → skip d (c ∷ s) ≡ skip d s
unfolding skip
skip_in d c s e = rw e refl

words_in : (d c : ℕ) (s : Str) → (c == d) ≡ true → words d (c ∷ s) ≡ words d s
unfolding words scan scan_step push
words_in d c s e = rw e refl

words-skip : (d : ℕ) (s : Str) → words d (skip d s) ≡ words d s
unfolding skip
words-skip d [] = refl
words-skip d (c ∷ s) = elim (Bool-cases (c == d)) [
  | inl e ↦ ap (words d) (skip_in d c s e) ∙ words-skip d s ∙ sym (words_in d c s e)
  | inr e ↦ ap (words d) (skip_out d c s e)
]

-- What `skip` stops at.
pub skip-cases :
    (d : ℕ) (s : Str)
    → (skip d s ≡ []) ⊎ ((c : ℕ) × ((t : Str) × ((skip d s ≡ c ∷ t) × ((c == d) ≡ false))))
unfolding skip
skip-cases d [] = inl refl
skip-cases d (c ∷ s) = elim (Bool-cases (c == d)) [
  | inl e ↦ rw e (skip-cases d s)
  | inr e ↦ inr (c, (s, (skip_out d c s e, e)))
]

-- What the first two calls of `strtok` on a list of words give.
unfoldable pub first_word : List Str → Option Str
first_word [] = none
first_word (w ∷ ws) = some w

unfoldable pub other_words : List Str → List Str
other_words [] = []
other_words (w ∷ ws) = ws

words_of-or_empty : (d : ℕ) (o : Option Str) → words_of d o ≡ words d (or_empty o)
unfolding words_of or_empty words scan push
words_of-or_empty d none = refl
words_of-or_empty d (some r) = refl

words_from :
    (d c : ℕ) (t : Str)
    → (c == d) ≡ false
    → words d (c ∷ t) ≡ (c ∷ before d t) ∷ words d (or_empty (behind d t))
unfolding words scan scan_step push
words_from d c t e =
    rw (e, scan-before d t, scan-behind d t)
      (ap (λ ws. (c ∷ before d t) ∷ ws) (words_of-or_empty d (behind d t)))

pub strtok_at :
    (d c : ℕ) (t : Str)
    → (c == d) ≡ false
    → strtok_from d (c ∷ t) ≡ (some (c ∷ before d t), or_empty (behind d t))
unfolding strtok_from before behind
strtok_at d c t e = rw e refl

pub strtok_from_nil : (d : ℕ) → strtok_from d [] ≡ (none, [])
unfolding strtok_from
strtok_from_nil d = refl

pub words_nil : (d : ℕ) → words d [] ≡ []
unfolding words scan push
words_nil d = refl

strtok_from-words :
    (d : ℕ) (s : Str)
    → ((strtok_from d (skip d s)).0 ≡ first_word (words d (skip d s)))
      × (words d (strtok_from d (skip d s)).1 ≡ other_words (words d (skip d s)))
unfolding first_word other_words
strtok_from-words d s = elim (skip-cases d s) [
  | inl e ↦ rw (e, strtok_from_nil d, words_nil d) (refl, refl)
  | inr (c, (t, (e, n))) ↦ rw (e, strtok_at d c t n, words_from d c t n) (refl, refl)
]

-- `strtok` gives the first word of its argument, NULL if there is none, and leaves the others.
pub strtok-words :
    (d : ℕ) (s saved : Str)
    → ((strtok d (some s) saved).0 ≡ first_word (words d s))
      × (words d (strtok d (some s) saved).1 ≡ other_words (words d s))
unfolding strtok
strtok-words d s saved = (
  (strtok_from-words d s).0 ∙ ap first_word (words-skip d s),
  (strtok_from-words d s).1 ∙ ap other_words (words-skip d s),
)

-- A call with NULL goes on with what the last one left.
pub strtok_again : (d : ℕ) (s saved : Str) → strtok d none s ≡ strtok d (some s) saved
unfolding strtok
strtok_again d s saved = refl
