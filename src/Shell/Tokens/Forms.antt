-- ===== src/Shell/Tokens/Forms.antt =====
-- myshell.c, `checkIOParser`: its result on each form that a command with redirections has.
use decs.Shell.Tokens.Splitting.{first_tokens, remove_spaces-words, file_name-words}
use decs.Shell.Strings.Words.{words_of, first_word, words}
use decs.Shell.Tokens.Redirection.{
  Lacks, check_io_parser_lem, strrchr_absent, strrchr-append, Lacks-append, redirect_input,
  redirect_output, strrchr-behind, strtok-append, strtok_resumed, redirect_input_output,
  redirect_output_input, output_comes_first_lem,
}
use decs.Shell.Tokens.{
  tokenize_commands_and_arguments, FileName, file_name, less, Parsed, name_or_fault, greater,
  parsed, space, no_file, redirect, check_io_parser, output_comes_first,
}
use decs.Shell.Strings.{Str}
use decs.Base.{
  refl, some, none, ◌≡◌, Option, ℕ, ◌∷◌, length, ◌++◌, ◌+◌, ◌<◌, ◌∙◌, ◌^◌, [], false, arith, true,
  length-append,
}

-- No sign of a redirection occurs in the string.
abbrev pub Plain : Str → Type 0
Plain s = Lacks less s × Lacks greater s

-- The words of the command, and the first word behind each sign
abbrev pub result : Str → FileName → FileName → Parsed
result command input output = parsed (first_tokens 200 (words space command)) input output

abbrev pub first_name : Str → FileName
first_name t = name_or_fault (first_word (words space t))

abbrev name_of : Option Str → FileName
name_of none = no_file
name_of (some t) = first_name t

file_name-name_of : (o : Option Str) → file_name o ≡ name_of o
unfolding file_name
file_name-name_of none = refl
file_name-name_of (some t) = file_name-words t

tokenize_lem :
    (s : Str) (i o : Option Str)
    → tokenize_commands_and_arguments (some s) i o ≡ result s (name_of i) (name_of o)
unfolding tokenize_commands_and_arguments words_of
tokenize_lem s i o =
    rw (file_name-name_of i, file_name-name_of o, remove_spaces-words (some s)) refl

-- Which sign comes first shows in the lengths of what `strrchr` returns.
order :
    (d e a b : ℕ) (s t : Str)
    → length s + length t < 2 ^ 30
    → (output_comes_first (d ∷ ((a ∷ s) ++ e ∷ b ∷ t)) (e ∷ b ∷ t) ≡ false)
      × (output_comes_first (e ∷ b ∷ t) (d ∷ ((a ∷ s) ++ e ∷ b ∷ t)) ≡ true)
order d e a b s t h =
    let n : length (s ++ e ∷ b ∷ t) ≡ length s + (length t + 2) =
      omega (arith, length-append s (e ∷ b ∷ t)) in
    (
      output_comes_first_lem (d ∷ ((a ∷ s) ++ e ∷ b ∷ t)) (e ∷ b ∷ t) (omega (arith, n, h))
            (omega (arith, h))
          ∙ ground (arith, n),
      output_comes_first_lem (e ∷ b ∷ t) (d ∷ ((a ∷ s) ++ e ∷ b ∷ t)) (omega (arith, h))
            (omega (arith, n, h))
          ∙ ground (arith, n),
    )

module _ (c : ℕ) (s : Str) (plain_s : Plain (c ∷ s)) where
  plain_form : check_io_parser (some (c ∷ s)) ≡ result (c ∷ s) no_file no_file
  unfolding redirect
  plain_form =
      check_io_parser_lem _ _ _ (strrchr_absent less _ plain_s.0)
        (strrchr_absent greater _ plain_s.1)
      ∙ tokenize_lem (c ∷ s) none none

  input_form :
      (a : ℕ) (f : Str)
      → Plain (a ∷ f)
      → check_io_parser (some ((c ∷ s) ++ less ∷ a ∷ f))
        ≡ result (c ∷ s) (first_name (a ∷ f)) no_file
  input_form a f plain_f =
      check_io_parser_lem _ _ _ (strrchr-append less (c ∷ s) (a ∷ f) plain_f.0)
        (strrchr_absent greater _ (Lacks-append greater less (c ∷ s) _ plain_s.1 refl plain_f.1))
      ∙ redirect_input _ _ _ _ (strtok-append less c s (a ∷ f) [] plain_s.0)
          (strtok_resumed less a f plain_f.0)
      ∙ tokenize_lem (c ∷ s) (some (a ∷ f)) none

  output_form :
      (b : ℕ) (g : Str)
      → Plain (b ∷ g)
      → check_io_parser (some ((c ∷ s) ++ greater ∷ b ∷ g))
        ≡ result (c ∷ s) no_file (first_name (b ∷ g))
  output_form b g plain_g =
      check_io_parser_lem _ _ _
        (strrchr_absent less _ (Lacks-append less greater (c ∷ s) _ plain_s.0 refl plain_g.0))
        (strrchr-append greater (c ∷ s) (b ∷ g) plain_g.1)
      ∙ redirect_output _ _ _ _ (strtok-append greater c s (b ∷ g) [] plain_s.1)
          (strtok_resumed greater b g plain_g.1)
      ∙ tokenize_lem (c ∷ s) none (some (b ∷ g))

  input_output_form :
      (a : ℕ) (f : Str) (b : ℕ) (g : Str)
      → Plain (a ∷ f)
      → Plain (b ∷ g)
      → length f + length g < 2 ^ 30
      → check_io_parser (some ((c ∷ s) ++ less ∷ ((a ∷ f) ++ greater ∷ b ∷ g)))
        ≡ result (c ∷ s) (first_name (a ∷ f)) (first_name (b ∷ g))
  input_output_form a f b g plain_f plain_g h =
      check_io_parser_lem _ _ _
        (strrchr-append less (c ∷ s) _
          (Lacks-append less greater (a ∷ f) _ plain_f.0 refl plain_g.0))
        (strrchr-behind greater (c ∷ s) _ _ (
          strrchr-behind greater (less ∷ []) _ _
            (strrchr-append greater (a ∷ f) (b ∷ g) plain_g.1)))
      ∙ redirect_input_output _ _ _ _ _ _ _ (order less greater a b f g h).0
          (strtok-append less c s _ [] plain_s.0)
          (strtok_resumed less a _ (Lacks-append less greater (a ∷ f) _ plain_f.0 refl plain_g.0))
          (strtok-append greater a f (b ∷ g) [] plain_f.1) (strtok_resumed greater b g plain_g.1)
      ∙ tokenize_lem (c ∷ s) (some (a ∷ f)) (some (b ∷ g))

  output_input_form :
      (a : ℕ) (f : Str) (b : ℕ) (g : Str)
      → Plain (a ∷ f)
      → Plain (b ∷ g)
      → length f + length g < 2 ^ 30
      → check_io_parser (some ((c ∷ s) ++ greater ∷ ((b ∷ g) ++ less ∷ a ∷ f)))
        ≡ result (c ∷ s) (first_name (a ∷ f)) (first_name (b ∷ g))
  output_input_form a f b g plain_f plain_g h =
      check_io_parser_lem _ _ _
        (strrchr-behind less (c ∷ s) _ _
          (strrchr-behind less (greater ∷ []) _ _ (strrchr-append less (b ∷ g) (a ∷ f) plain_f.0)))
        (strrchr-append greater (c ∷ s) _
          (Lacks-append greater less (b ∷ g) _ plain_g.1 refl plain_f.1))
      ∙ redirect_output_input _ _ _ _ _ _ _ (order greater less b a g f (omega (arith, h))).1
          (strtok-append greater c s _ [] plain_s.1)
          (strtok_resumed greater b _
            (Lacks-append greater less (b ∷ g) _ plain_g.1 refl plain_f.1))
          (strtok-append less b g (a ∷ f) [] plain_g.0) (strtok_resumed less a f plain_f.0)
      ∙ tokenize_lem (c ∷ s) (some (a ∷ f)) (some (b ∷ g))

-- `checkIOParser` reads back each form of a command: alone, with an input file, with an output file
-- and with both in either order, where neither the command nor a file's text is empty or holds a
-- sign, and the texts are shorter than 2^30. The tokens are the first 200 words of the command and
-- each file is the first word of its text, without which the shell dereferences NULL.
pub check_io_parser_forms :
    (c : ℕ) (s : Str) (a : ℕ) (f : Str) (b : ℕ) (g : Str)
    → Plain (c ∷ s)
    → Plain (a ∷ f)
    → Plain (b ∷ g)
    → length f + length g < 2 ^ 30
    → let command = c ∷ s in
      let input = a ∷ f in
      let output = b ∷ g in
      (check_io_parser (some command) ≡ result command no_file no_file)
      × (check_io_parser (some (command ++ less ∷ input))
          ≡ result command (first_name input) no_file)
      × (check_io_parser (some (command ++ greater ∷ output))
          ≡ result command no_file (first_name output))
      × (check_io_parser (some (command ++ less ∷ (input ++ greater ∷ output)))
          ≡ result command (first_name input) (first_name output))
      × (check_io_parser (some (command ++ greater ∷ (output ++ less ∷ input)))
          ≡ result command (first_name input) (first_name output))
check_io_parser_forms c s a f b g plain_s plain_f plain_g h = (
  plain_form c s plain_s,
  input_form c s plain_s a f plain_f,
  output_form c s plain_s b g plain_g,
  input_output_form c s plain_s a f b g plain_f plain_g h,
  output_input_form c s plain_s a f b g plain_f plain_g h,
)
