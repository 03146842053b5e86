-- ===== src/Malloc/Main.antt =====
-- assignment-3/PA_3_handout/mdriver.c: `main`, with `ftimer_gettod` of ftimer.c, which config.h selects.
-- Messages and times are left out, and the arithmetic on `double` of the performance index.
pub mod Counting
pub mod Driving
pub mod Errors
pub mod Steady
mod Tests
use decs.Base.Int.{ℤ, pos, ◌+ℤ◌}
use decs.Base.{
  ℕ, Bool, List, Option, some, none, ◌∷◌, [], ◌++◌, map, true, false, if◌then◌else◌, suc, ◌==◌,
  ◌||◌, ◌&&◌, zero, not,
}
use decs.Text.{Bytes}
use decs.Malloc.Memlib.{Mem, mem_init, mem_heapsize}
use decs.Malloc.Package.{Package, Machine}
use decs.Malloc.Driver.{TraceOp, World, Outcome, eval_mm_valid, going, failed, aborted}
use decs.Malloc.Util.{Usage, run_util}
use decs.Malloc.Speed.{
  eval_mm_speed, Allocator, LibcRun, LibcOutcome, eval_libc_valid, eval_libc_speed,
}
use decs.Malloc.Trace.{Trace, Reading, read_trace, got, exits, aborts, undefined}

-- What a part of `main` comes to: its result, an exit, a failed assertion, or undefined behaviour
pub data Progress (A : Type 0) : Type 0 where
  done : A → Progress A
  quits : Progress A
  asserts : Progress A
  misuses : Progress A

infixl 5 ◌>>=◌
abbrev pub ◌>>=◌ : {A B : Type 0} → Progress A → (A → Progress B) → Progress B
done a >>= f = f a
quits >>= f = quits
asserts >>= f = asserts
misuses >>= f = misuses

-- What `getopt` gives for "f:t:hvVgal"
pub data Flag : Type 0 where
  flag_g flag_a flag_l flag_v flag_V flag_h flag_unknown : Flag
  flag_f flag_t : Bytes → Flag

-- The variables that the flags set; `tracefile` is the one of `-f`.
pub record Arguments : Type 0 where
  pub tracefile : Option Bytes
  pub tracedir : Bytes
  pub team_check : Bool
  pub run_libc : Bool
  pub autograder : Bool

-- `if (tracedir[strlen(tracedir)-1] != '/')`; the text is `c ∷ s`.
unfoldable pub with_slash : ℕ → Bytes → Bytes
with_slash c [] = if c == b'/' then c ∷ [] else c ∷ b'/' ∷ []
with_slash c (d ∷ s) = c ∷ with_slash d s

-- An empty directory is read before its start.
unfoldable pub set_tracedir : Bytes → Arguments → Progress Arguments
unfolding with_slash
set_tracedir [] a = misuses
set_tracedir (c ∷ s) a = done (record a { tracedir = with_slash c s })

unfoldable pub flag_dir : Option Bytes → Bytes → Arguments → Progress Arguments
unfolding set_tracedir
flag_dir none dir a = set_tracedir dir a
flag_dir (some file) dir a = done a

unfoldable pub apply_flag : Flag → Arguments → Progress Arguments
unfolding flag_dir
apply_flag flag_g a = done (record a { autograder = true })
apply_flag (flag_f file) a = done (record a { tracefile = some file; tracedir = b'.' ∷ b'/' ∷ [] })
apply_flag (flag_t dir) a = flag_dir a.tracefile dir a
apply_flag flag_a a = done (record a { team_check = false })
apply_flag flag_l a = done (record a { run_libc = true })
apply_flag flag_v a = done a
apply_flag flag_V a = done a
apply_flag flag_h a = quits
apply_flag flag_unknown a = quits

unfoldable pub read_flags : List Flag → Arguments → Progress Arguments
unfolding apply_flag
read_flags [] a = done a
read_flags (x ∷ more) a = apply_flag x a >>= read_flags more

-- `team_t`
pub record Team : Type 0 where
  pub teamname : Bytes
  pub name1 : Bytes
  pub id1 : Bytes
  pub name2 : Bytes
  pub id2 : Bytes

abbrev pub is_empty : Bytes → Bool
is_empty [] = true
is_empty (c ∷ s) = false

unfoldable pub team_is_complete : Team → Bool
team_is_complete team =
    if is_empty team.teamname
    then false
    else if is_empty team.name1 || is_empty team.id1
    then false
    else not (
        (not (is_empty team.name2) && is_empty team.id2)
        || (is_empty team.name2 && not (is_empty team.id2)))

unfoldable pub check_team : Bool → Team → Progress Unit
unfolding team_is_complete
check_team team_check team = if team_check && not (team_is_complete team) then quits else done tt

unfoldable pub from_reading : Reading → Progress Trace
from_reading (got t) = done t
from_reading exits = quits
from_reading aborts = asserts
from_reading undefined = misuses

-- `stats_t`: `util` has the two parts of the quotient.
pub record Stats : Type 0 where
  pub ops : ℤ
  pub valid : Bool
  pub util : Option (ℤ × ℕ)

unfoldable pub or_quits : {A : Type 0} → Option A → Progress A
or_quits none = quits
or_quits (some a) = done a

-- `fsecs`: `n` timed runs
unfoldable pub time_runs : ℕ → Package → List TraceOp → World → Progress World
unfolding or_quits eval_mm_speed
time_runs zero pk ops w = done w
time_runs (suc n) pk ops w = or_quits (eval_mm_speed pk ops w) >>= time_runs n pk ops

-- what follows for a trace that is valid, and what is kept of one that is not
unfoldable pub eval_valid : Package → Trace → Outcome → Progress (Stats × World)
unfolding or_quits run_util time_runs mem_heapsize
eval_valid pk t (going w) = do
  u ← or_quits (run_util pk t.ops w)
  v ← time_runs 10 pk t.ops u.world
  done (
    record {
      ops = t.num_ops;
      valid = true;
      util = some (u.high, mem_heapsize u.world.machine.mem);
    },
    v,
  )
eval_valid pk t (failed w) = done (record { ops = t.num_ops; valid = false; util = none }, w)
eval_valid pk t aborted = asserts
