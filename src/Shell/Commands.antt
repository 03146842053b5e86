-- ===== src/Shell/Commands.antt =====
-- assignment 1/myshell.c: the tables of built-in and custom commands, their lookup, the rewriting of
-- custom commands, the removal of quotes, and the splitting of a line at `;`.
use decs.Shell.Tokens.{FileName, undefined_read, named, no_file}
use decs.Shell.Strings.{Str, same, before, strtok, strtok_leaves, behind}
use decs.Base.{
  ℕ, refl, List, Option, ◌∷◌, Bool, none, some, [], false, if◌then◌else◌, ◌||◌, take, ◌==◌, suc,
  zero,
}
pub mod Quotes
pub mod Separation

-- `"cd"`
abbrev pub cd_name : Str
cd_name = 99 ∷ 100 ∷ []

-- `"exit"`
abbrev pub exit_name : Str
exit_name = 101 ∷ 120 ∷ 105 ∷ 116 ∷ []

-- `"checkcpupercentage"`
abbrev pub checkcpupercentage_name : Str
checkcpupercentage_name =
    99 ∷ 104 ∷ 101 ∷ 99 ∷ 107 ∷ 99 ∷ 112 ∷ 117 ∷ 112 ∷ 101 ∷ 114 ∷ 99 ∷ 101 ∷ 110 ∷ 116 ∷ 97 ∷ 103
    ∷ 101 ∷ []

-- `"checkresidentmemory"`
abbrev pub checkresidentmemory_name : Str
checkresidentmemory_name =
    99 ∷ 104 ∷ 101 ∷ 99 ∷ 107 ∷ 114 ∷ 101 ∷ 115 ∷ 105 ∷ 100 ∷ 101 ∷ 110 ∷ 116 ∷ 109 ∷ 101 ∷ 109
    ∷ 111 ∷ 114 ∷ 121 ∷ []

-- `"listFiles"`
abbrev pub list_files_name : Str
list_files_name = 108 ∷ 105 ∷ 115 ∷ 116 ∷ 70 ∷ 105 ∷ 108 ∷ 101 ∷ 115 ∷ []

-- `"sortFile"`
abbrev pub sort_file_name : Str
sort_file_name = 115 ∷ 111 ∷ 114 ∷ 116 ∷ 70 ∷ 105 ∷ 108 ∷ 101 ∷ []

-- `"ps"`
abbrev pub ps_name : Str
ps_name = 112 ∷ 115 ∷ []

-- `"-o"`
abbrev pub dash_o_name : Str
dash_o_name = 45 ∷ 111 ∷ []

-- `"rss="`
abbrev pub rss_name : Str
rss_name = 114 ∷ 115 ∷ 115 ∷ 61 ∷ []

-- `"ls"`
abbrev pub ls_name : Str
ls_name = 108 ∷ 115 ∷ []

-- `"sort"`
abbrev pub sort_name : Str
sort_name = 115 ∷ 111 ∷ 114 ∷ 116 ∷ []

-- `"./"`
abbrev pub here_name : Str
here_name = 46 ∷ 47 ∷ []

-- `"files.txt"`
abbrev pub files_txt_name : Str
files_txt_name = 102 ∷ 105 ∷ 108 ∷ 101 ∷ 115 ∷ 46 ∷ 116 ∷ 120 ∷ 116 ∷ []

abbrev pub builtin_commands : List Str
builtin_commands = cd_name ∷ exit_name ∷ []

-- `customCommands`, the four entries that `commantCount` counts
abbrev pub custom_commands : List Str
custom_commands =
    checkcpupercentage_name ∷ checkresidentmemory_name ∷ list_files_name ∷ sort_file_name ∷ []

-- a loop of `CommandsChecker` over one of the tables
unfoldable pub matches : Str → List Str → Bool
unfolding same
matches command [] = false
matches command (n ∷ ns) = same command n || matches command ns

-- 0 for neither, 1 for a built-in, 2 for a custom command
unfoldable pub commands_checker : Option Str → ℕ
unfolding matches
commands_checker none = 0
commands_checker (some command) =
    if matches command builtin_commands then 1 else if matches command custom_commands then 2 else 0

-- The branch of `checkCustomCommands` for checkresidentmemory: the fourth entry becomes the argument,
-- or NULL if there is none.
unfoldable pub resident_memory : List Str → List Str
resident_memory [] = ps_name ∷ dash_o_name ∷ rss_name ∷ []
resident_memory (a ∷ rest) = ps_name ∷ dash_o_name ∷ rss_name ∷ a ∷ []

-- `checkCustomCommands` on the tokens before the NULL; the callers have checked that there is one.
unfoldable pub check_custom_commands : List Str → List Str
unfolding same resident_memory
check_custom_commands [] = []
check_custom_commands (n ∷ rest) =
    if same n checkresidentmemory_name
    then resident_memory rest
    else if same n list_files_name
    then ls_name ∷ []
    else if same n sort_file_name
    then sort_name ∷ take 1 rest
    else n ∷ rest

abbrev pub quote : ℕ
quote = 34

-- The loop of `doubleQuotesRemovalFromTokens` on a token that starts with a quote, from the character
-- behind it: the search for the closing quote starts one further. Where the token ends with its first
-- quote the search leaves the string, for which `none` stands.
unfoldable pub closing_quote : Str → Option Str
unfolding before
closing_quote [] = none
closing_quote (c ∷ s) = some (c ∷ before quote s)

unfoldable pub remove_quotes : Str → Option Str
unfolding closing_quote
remove_quotes [] = some []
remove_quotes (c ∷ s) = if c == quote then closing_quote s else some (c ∷ s)

unfoldable pub cons_if : Option Str → Option (List Str) → Option (List Str)
cons_if none ws = none
cons_if (some w) none = none
cons_if (some w) (some ws) = some (w ∷ ws)

unfoldable pub double_quotes_removal_from_tokens : List Str → Option (List Str)
unfolding remove_quotes cons_if
double_quotes_removal_from_tokens [] = some []
double_quotes_removal_from_tokens (w ∷ ws) =
    cons_if (remove_quotes w) (double_quotes_removal_from_tokens ws)

-- `fileDoubleQuotesRemovalFromTokens` on one of the two files
unfoldable pub quoted_file : Option Str → FileName
quoted_file none = undefined_read
quoted_file (some f) = named f

unfoldable pub file_double_quotes_removal : FileName → FileName
unfolding remove_quotes quoted_file
file_double_quotes_removal no_file = no_file
file_double_quotes_removal (named f) = quoted_file (remove_quotes f)
file_double_quotes_removal undefined_read = undefined_read

abbrev pub semicolon : ℕ
semicolon = 59

abbrev pub newline : ℕ
newline = 10

-- What `commaChecker` does: two children run the two commands and 1 is returned, or 0 is returned
-- with the string that the argument points to then.
pub data Separated : Type 0 where
  two : Str → Str → Separated
  one : Str → Separated

unfoldable pub second : Str → Str → Option Str → Separated
second rest command1 none = one rest
second rest command1 (some command2) = two command1 command2

-- the second call of `strtok`, where the first found a command
unfoldable pub separate : Str → Option Str × Str → Separated
unfolding second strtok
separate rest (none, saved) = one rest
separate rest (some command1, saved) = second rest command1 (strtok semicolon none saved).0

unfoldable pub comma_checker : Str → Separated
unfolding separate strtok strtok_leaves
comma_checker input = separate (strtok_leaves semicolon input) (strtok semicolon (some input) [])
