-- ===== src/Shell/Tokens/Splitting.antt =====
-- myshell.c, `removeSpacesAndCreateTokens` and `fileRemoveSpacesAndCreateTokens`: what they find.
use decs.Shell.Strings.{Str, behind, before, same, strtok_from, strtok, skip}
use decs.Shell.Strings.Words.{
  words_of, push, words-strsep, skip-cases, first_word, strtok_from_nil, words, strtok_at,
  strtok-words,
}
use decs.Shell.Tokens.{
  calls, cons_token, fill_tokens, remove_spaces_and_create_tokens, Tokens, space, pass_spaces,
  file_name, name_or_fault,
}
use decs.Base.{
  ℕ, refl, List, [], true, none, Option, ◌≡◌, false, ◌≤◌, take, suc, some, arith, ltb, length, ◌∷◌,
  Bool-cases, ◌==◌, inl, inr, ap, ◌∙◌, sym, zero,
}

-- What the array holds once the words of the string are written to `room` entries.
unfoldable pub first_tokens : ℕ → List Str → Tokens
first_tokens room ws = record { list = take room ws; ended = ltb (length ws) room }

calls-behind : (s : Str) → calls (behind space s) ≤ suc (length s)
unfolding calls behind
calls-behind [] = omega arith
calls-behind (c ∷ s) = elim (Bool-cases (c == space)) [
  | inl e ↦ rw e (omega arith)
  | inr e ↦ rw e (omega (arith, calls-behind s))
]

cons-first_tokens :
    (room : ℕ) (w : Str) (ws : List Str)
    → cons_token w (first_tokens room ws) ≡ first_tokens (suc room) (w ∷ ws)
unfolding cons_token first_tokens
cons-first_tokens room w ws = ground arith

none-first_tokens : (room : ℕ) → record { list = []; ended = true } ≡ first_tokens (suc room) []
unfolding first_tokens
none-first_tokens room = ground arith

full-first_tokens : (ws : List Str) → record { list = []; ended = false } ≡ first_tokens 0 ws
unfolding first_tokens
full-first_tokens ws = ground arith

words_of_nil : (d : ℕ) → words_of d none ≡ []
unfolding words_of
words_of_nil d = refl

words_of-strsep :
    (s : Str) → words_of space (some s) ≡ push (before space s) (words_of space (behind space s))
unfolding words_of
words_of-strsep s = words-strsep space s

-- A field of `strsep` joins the tokens unless it is empty.
field-first_tokens :
    (f : Str) (room : ℕ) (skipped kept : Tokens) (ws : List Str)
    → skipped ≡ first_tokens (suc room) ws
    → kept ≡ first_tokens room ws
    → (elim f as (λ x. Tokens) [ [] ↦ skipped | c ∷ w ↦ cons_token (c ∷ w) kept ])
      ≡ first_tokens (suc room) (push f ws)
unfolding push
field-first_tokens [] room skipped kept ws g h = g
field-first_tokens (c ∷ w) room skipped kept ws g h =
    ap (cons_token (c ∷ w)) h ∙ cons-first_tokens room (c ∷ w) ws

fill_tokens-words :
    (fuel room : ℕ) (s : Option Str)
    → calls s ≤ fuel
    → fill_tokens fuel room s ≡ first_tokens room (words_of space s)
unfolding fill_tokens calls
fill_tokens-words zero room none h = ground arith
fill_tokens-words zero room (some s) h = ground arith
fill_tokens-words (suc fuel) zero s h = full-first_tokens (words_of space s)
fill_tokens-words (suc fuel) (suc room) none h = rw (words_of_nil space) (none-first_tokens room)
fill_tokens-words (suc fuel) (suc room) (some s) h =
    let rest = behind space s in
    let ih : (n : ℕ) → fill_tokens fuel n rest ≡ first_tokens n (words_of space rest) =
      λ n. fill_tokens-words fuel n rest (omega (arith, h, calls-behind s)) in
    field-first_tokens (before space s) room _ _ _ (ih (suc room)) (ih room)
    ∙ ap (first_tokens (suc room)) (sym (words_of-strsep s))

-- The array holds the first 200 words of the string, in order; a NULL stands behind them where the
-- string has fewer than 200. The calls of `strsep` allowed are always enough.
pub remove_spaces-words :
    (s : Option Str) → remove_spaces_and_create_tokens s ≡ first_tokens 200 (words_of space s)
unfolding remove_spaces_and_create_tokens
remove_spaces-words s = fill_tokens-words (calls s) 200 s (omega arith)

same_delimiter : (c : ℕ) (t : Str) → (c == space) ≡ false → same (c ∷ t) (space ∷ []) ≡ false
unfolding same
same_delimiter c t n = rw n refl

pass_spaces_other :
    (fuel : ℕ) (f saved : Str)
    → same f (space ∷ []) ≡ false
    → pass_spaces (suc fuel) (some f, saved) ≡ some f
unfolding pass_spaces
pass_spaces_other fuel f saved n = rw n refl

pass_spaces_null : (fuel : ℕ) (saved : Str) → pass_spaces (suc fuel) (none, saved) ≡ none
unfolding pass_spaces
pass_spaces_null fuel saved = refl

pass_spaces_lem :
    (fuel : ℕ) (s : Str)
    → pass_spaces (suc fuel) (strtok_from space (skip space s))
      ≡ (strtok_from space (skip space s)).0
pass_spaces_lem fuel s = elim (skip-cases space s) [
  | inl e ↦ rw (e, strtok_from_nil space) (pass_spaces_null fuel [])
  | inr (c, (t, (e, n))) ↦
      rw (e, strtok_at space c t n)
        (pass_spaces_other fuel _ _ (same_delimiter c (before space t) n))
]

-- The name of a file is the first word behind the sign; without one the shell dereferences NULL.
-- The loop that passes over a token of one space never runs.
pub file_name-words : (t : Str) → file_name (some t) ≡ name_or_fault (first_word (words space t))
unfolding file_name strtok
file_name-words t = ap name_or_fault (pass_spaces_lem (length t) t ∙ (strtok-words space t []).0)
