-- ===== src/Shell/Commands/Quotes.antt =====
-- myshell.c, `doubleQuotesRemovalFromTokens`: which tokens it changes, and how.
use decs.Shell.Tokens.Redirection.{Lacks, before-append}
use decs.Shell.Commands.{
  closing_quote, remove_quotes, double_quotes_removal_from_tokens, quote, cons_if,
}
use decs.Shell.Strings.{Str}
use decs.Base.{
  ℕ, refl, ◌<◌, ◌==◌, ◌⊎◌, length, ◌≡◌, ◌∷◌, List, false, some, All, ◌++◌, map, inl, arith, ap, [],
  ◌∙◌, inr, sym,
}

-- A token in quotes, with whatever follows the closing one, and its body, which has a character and no
-- quote
abbrev pub IsQuoted : Str → Str → Type 0
IsQuoted token body =
    (0 < length body) × Lacks quote body × ((rest : Str) × (token ≡ quote ∷ (body ++ quote ∷ rest)))

-- A token that does not start with a quote
abbrev pub IsBare : Str → Str → Type 0
IsBare token body =
    (first : ℕ) × ((rest : Str) × (((first == quote) ≡ false)
        × ((token ≡ first ∷ rest) × (body ≡ token))))

closing_quote_lem :
    (body rest : Str)
    → 0 < length body
    → Lacks quote body
    → closing_quote (body ++ quote ∷ rest) ≡ some body
unfolding closing_quote
closing_quote_lem [] rest h k = ground (arith, h)
closing_quote_lem (c ∷ s) rest h k = ap (λ x. some (c ∷ x)) (before-append quote s rest k.1)

remove_quotes_quoted : (s : Str) → remove_quotes (quote ∷ s) ≡ closing_quote s
unfolding remove_quotes
remove_quotes_quoted s = refl

remove_quotes_bare : (c : ℕ) (s : Str) → (c == quote) ≡ false → remove_quotes (c ∷ s) ≡ some (c ∷ s)
unfolding remove_quotes
remove_quotes_bare c s e = rw e refl

remove_quotes_lem :
    (token body : Str) → IsQuoted token body ⊎ IsBare token body → remove_quotes token ≡ some body
remove_quotes_lem token body (inl (n, k, (rest, e))) =
    ap remove_quotes e ∙ remove_quotes_quoted _ ∙ closing_quote_lem body rest n k
remove_quotes_lem token body (inr (c, (s, (n, (e, f))))) =
    ap remove_quotes e ∙ remove_quotes_bare c s n ∙ ap some (sym (f ∙ e))

-- Of tokens that are each in quotes, with a character and no quote between them, or do not start with a
-- quote, the first kind becomes what stands between its quotes, and the second stays as it is.
pub double_quotes_removal_from_tokens_lem :
    (ts : List (Str × Str))
    → All (λ t. IsQuoted t.0 t.1 ⊎ IsBare t.0 t.1) ts
    → double_quotes_removal_from_tokens (map (λ t. t.0) ts) ≡ some (map (λ t. t.1) ts)
unfolding double_quotes_removal_from_tokens cons_if
double_quotes_removal_from_tokens_lem [] h = refl
double_quotes_removal_from_tokens_lem ((token, body) ∷ ts) h =
    rw (remove_quotes_lem token body h.0, double_quotes_removal_from_tokens_lem ts h.1) refl
