-- ===== src/Malloc/Main/Tests.antt =====
-- mdriver.c, `main`: two trace files, of which the second makes the driver fail.
use decs.Base.{
  ℕ, refl, ◌≡◌, ◌∷◌, [], Option, some, none, Bool, ◌+◌, true, length, false, ◌==◌, if◌then◌else◌,
}
use decs.Text.{Bytes}
use decs.Malloc.Mm.{mm, mm_init, mm_malloc, mm_free, mm_realloc}
use decs.Malloc.Ranges.{add_range}
use decs.Malloc.Speed.{Allocator}
use decs.Malloc.Main.{Arguments, Team, flag_a, flag_l, done}
use decs.Malloc.Main.Driving.{Environment, main, terminated, tracefiles}
use decs.Malloc.Main.Counting.{main-Accounts, AccountsFor}

-- "0 1 2 0 a 0 512 f 0"
abbrev good_text : Bytes
good_text =
    b'0' ∷ b' ' ∷ b'1' ∷ b' ' ∷ b'2' ∷ b' ' ∷ b'0' ∷ 10 ∷ b'a' ∷ b' ' ∷ b'0' ∷ b' ' ∷ b'5' ∷ b'1'
    ∷ b'2' ∷ 10 ∷ b'f' ∷ b' ' ∷ b'0' ∷ 10 ∷ []

-- "0 129 3 0 a 0 8 a 128 8 r 128 8": an index whose low byte is no signed `char`
abbrev bad_text : Bytes
bad_text =
    b'0' ∷ b' ' ∷ b'1' ∷ b'2' ∷ b'9' ∷ b' ' ∷ b'3' ∷ b' ' ∷ b'0' ∷ 10 ∷ b'a' ∷ b' ' ∷ b'0' ∷ b' '
    ∷ b'8' ∷ 10 ∷ b'a' ∷ b' ' ∷ b'1' ∷ b'2' ∷ b'8' ∷ b' ' ∷ b'8' ∷ 10 ∷ b'r' ∷ b' ' ∷ b'1' ∷ b'2'
    ∷ b'8' ∷ b' ' ∷ b'8' ∷ 10 ∷ []

abbrev two_files : Environment
two_files = record {
  file = λ path. if path_is_good path then some good_text else some bad_text;
  fresh = λ _. 0;
  region = 4096;
  bytes = λ _. 0;
}
  where
    path_is_good : Bytes → Bool
    path_is_good [] = false
    path_is_good (c ∷ s) = c == b'g'

abbrev no_team : Team
no_team = record { teamname = []; name1 = []; id1 = []; name2 = []; id2 = [] }

abbrev bump : Allocator ℕ
bump = record {
  malloc = λ n top. (top, top + n);
  free = λ p top. top;
  realloc = λ p n top. (top, top + n);
}

abbrev standard : Arguments
standard = record {
  tracefile = none;
  tracedir = [];
  team_check = true;
  run_libc = false;
  autograder = false;
}

two_files_run :
    main two_files mm no_team bump
      (record { state = 8192; blocks = λ _. 0; errors = 0 })
      standard
      ((b'g' ∷ []) ∷ (b'b' ∷ []) ∷ [])
      (flag_a ∷ flag_l ∷ [])
    ≡ done (record { correct = 1; perfindex = terminated 1 })
unfolding main mm_init mm_malloc mm_free mm_realloc add_range
two_files_run = refl

main-Accounts_example :
    (file : Option Bytes) × AccountsFor
      (length (tracefiles ((b'g' ∷ []) ∷ (b'b' ∷ []) ∷ []) file))
      1
      (terminated 1)
main-Accounts_example =
    main-Accounts two_files mm no_team bump (record { state = 8192; blocks = λ _. 0; errors = 0 })
      standard ((b'g' ∷ []) ∷ (b'b' ∷ []) ∷ []) (flag_a ∷ flag_l ∷ [])
      (record { correct = 1; perfindex = terminated 1 }) two_files_run
