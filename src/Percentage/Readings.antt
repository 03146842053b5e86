-- ===== src/Percentage/Readings.antt =====
-- checkcpupercentage.c: the percentages, from two readings of files of the usual form.
use decs.Base.{ℕ, ◌≡◌, List, ◌∷◌, [], ◌++◌, All, length, ◌≤◌}
use decs.Base.Int.{ℤ}
use decs.Shell.Strings.{Str}
use decs.Shell.Tokens.Redirection.{Lacks}
use decs.Text.{Bytes}
use decs.Percentage.{Times}
use decs.Percentage.Fields.{number, fifteen, line, total}

-- What the two files hold, with `later` behind the parts that are read
pub record Files : Type 0 where
  pub fields : List Str
  pub utime : Str
  pub stime : Str
  pub name : Str
  pub first_count : Str
  pub counts : List Str
  pub later : Bytes

unfoldable pub stat_text : Files → Bytes
stat_text x = fifteen x.fields x.utime x.stime ++ x.later

unfoldable pub cpu_text : Files → Bytes
cpu_text x = (line x.name x.first_count x.counts ++ 10 ∷ []) ++ x.later

unfoldable pub times_of : ℤ → Files → Times
unfolding number total
times_of totaltime x = record {
  utime = number x.utime;
  stime = number x.stime;
  totaltime = total totaltime x.first_count x.counts;
}

-- The files have the usual form, and what is read of them fits a buffer of `size` bytes.
pub record IsReading (size : ℕ) (x : Files) : Type 0 where
  pub thirteen : length x.fields ≡ 13
  pub fields_apart : All (Lacks b' ') x.fields
  pub utime_apart : Lacks b' ' x.utime
  pub stime_apart : Lacks b' ' x.stime
  pub stat_clean : Lacks 0 (fifteen x.fields x.utime x.stime)
  pub stat_fits : length (fifteen x.fields x.utime x.stime) ≤ size
  pub name_apart : Lacks b' ' x.name
  pub counts_apart : All (Lacks b' ') (x.first_count ∷ x.counts)
  pub one_line : Lacks 10 (line x.name x.first_count x.counts)
  pub cpu_clean : Lacks 0 (line x.name x.first_count x.counts ++ 10 ∷ [])
  pub cpu_fits : length (line x.name x.first_count x.counts ++ 10 ∷ []) ≤ size
