-- ===== src/Shell/Commands/Separation.antt =====
-- myshell.c, `commaChecker`: which commands it runs.
use decs.Shell.Strings.Words.{first_word, other_words, words, strtok-words, strtok_again}
use decs.Shell.Commands.{second, separate, comma_checker, Separated, one, semicolon, two}
use decs.Shell.Strings.{Str, strtok_leaves, strtok, or_empty}
use decs.Base.{refl, List, none, ◌≡◌, some, ◌∷◌, Option, [], ap, ◌∙◌, arith}

-- Two commands run where the line has two parts, whatever follows them.
unfoldable pub separated : Str → List Str → Separated
separated rest [] = one rest
separated rest (w ∷ []) = one rest
separated rest (v ∷ w ∷ ws) = two v w

second-first_word :
    (rest v : Str) (ws : List Str) → second rest v (first_word ws) ≡ separated rest (v ∷ ws)
unfolding second first_word separated
second-first_word rest v [] = refl
second-first_word rest v (w ∷ ws) = refl

separate-separated :
    (rest : Str) (r : Option Str × Str) (ws : List Str)
    → r.0 ≡ first_word ws
    → words semicolon r.1 ≡ other_words ws
    → separate rest r ≡ separated rest ws
unfolding separate first_word other_words separated or_empty
separate-separated rest (none, saved) [] g h = refl
separate-separated rest (none, saved) (w ∷ ws) g h = ground (arith, g)
separate-separated rest (some v, saved) [] g h = ground (arith, g)
separate-separated rest (some v, saved) (w ∷ ws) g h =
    let same_part : v ≡ w = ap or_empty g in
    ap (second rest v) (
      ap (λ x. x.0) (strtok_again semicolon saved [])
      ∙ (strtok-words semicolon saved []).0
      ∙ ap first_word h)
    ∙ second-first_word rest v ws
    ∙ ap (λ x. separated rest (x ∷ ws)) same_part

-- `commaChecker` runs the first two parts of the line between semicolons, empty parts not counted, and
-- drops the others. With fewer than two it returns 0, and the line is cut behind its first part.
pub comma_checker-words :
    (input : Str)
    → comma_checker input ≡ separated (strtok_leaves semicolon input) (words semicolon input)
unfolding comma_checker
comma_checker-words input =
    separate-separated _ (strtok semicolon (some input) []) (words semicolon input)
      (strtok-words semicolon input []).0 (strtok-words semicolon input []).1
