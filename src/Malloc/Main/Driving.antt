-- ===== src/Malloc/Main/Driving.antt =====
-- mdriver.c, `main`: the evaluation of the trace files, and the report.
use decs.Base.Int.{ℤ, pos, ◌+ℤ◌}
use decs.Base.{ℕ, Bool, List, Option, some, none, ◌∷◌, [], ◌++◌, if◌then◌else◌, suc, ◌==◌, zero}
use decs.Text.{Bytes}
use decs.Malloc.Memlib.{Mem, mem_init}
use decs.Malloc.Package.{Package}
use decs.Malloc.Driver.{World, eval_mm_valid}
use decs.Malloc.Speed.{
  Allocator, LibcRun, LibcOutcome, eval_libc_valid, eval_libc_speed, went_on, exited,
}
use decs.Malloc.Trace.{read_trace, Trace}
use decs.Malloc.Main.{
  ◌>>=◌, Progress, Stats, Flag, Arguments, Team, from_reading, eval_valid, read_flags, check_team,
  or_quits, done, quits,
}

-- What `main` is run with: the files by path, what fresh memory holds, and the region that `malloc`
-- gives to `mem_init`, with its bytes
pub record Environment : Type 0 where
  pub file : Bytes → Option Bytes
  pub fresh : ℕ → ℕ
  pub region : ℕ
  pub bytes : ℕ → ℕ

-- One round of the loop over the trace files
unfoldable pub eval_file : Environment → Package → Bytes → World → Progress (Stats × World)
unfolding from_reading read_trace eval_valid eval_mm_valid
eval_file env pk path w = do
  t ← from_reading (read_trace (env.file path))
  eval_valid pk t
      (eval_mm_valid pk t.ops (record w { blocks = env.fresh; block_sizes = env.fresh }))

unfoldable pub eval_files :
    Environment → Package → Bytes → List Bytes → World → Progress (List Stats × World)
unfolding eval_file
eval_files env pk tracedir [] w = done ([], w)
eval_files env pk tracedir (name ∷ names) w = do
  a ← eval_file env pk (tracedir ++ name) w
  b ← eval_files env pk tracedir names a.1
  done (a.0 ∷ b.0, b.1)

-- The C library's own allocator: `unix_error` or `app_error` ends the process.
module _ {M : Type 0} (libc : Allocator M) where
  unfoldable pub goes_well : LibcOutcome M → Progress (LibcRun M)
  goes_well (exited e) = quits
  goes_well (went_on r) = done r

  unfoldable pub libc_runs : ℕ → Trace → LibcRun M → Progress (LibcRun M)
  unfolding goes_well eval_libc_speed
  libc_runs zero t r = done r
  libc_runs (suc n) t r = goes_well (eval_libc_speed libc t.ops r) >>= libc_runs n t

  unfoldable pub libc_file : Environment → Bytes → LibcRun M → Progress (LibcRun M)
  unfolding from_reading read_trace goes_well eval_libc_valid libc_runs
  libc_file env path r = do
    t ← from_reading (read_trace (env.file path))
    v ← goes_well (eval_libc_valid libc t.ops (record r { blocks = env.fresh }))
    libc_runs 10 t v

  unfoldable pub libc_files : Environment → Bytes → List Bytes → LibcRun M → Progress (LibcRun M)
  unfolding libc_file
  libc_files env tracedir [] r = done r
  libc_files env tracedir (name ∷ names) r =
      libc_file env (tracedir ++ name) r >>= libc_files env tracedir names

-- The sums over the traces
unfoldable pub total_ops : List Stats → ℤ
unfolding ◌+ℤ◌
total_ops [] = pos 0
total_ops (s ∷ more) = s.ops +ℤ total_ops more

unfoldable pub count_correct : List Stats → ℕ
count_correct [] = 0
count_correct (s ∷ more) = if s.valid then suc (count_correct more) else count_correct more

-- The performance index: from the sums, or 0 behind a number of errors
pub data Index : Type 0 where
  computed : ℤ → List Stats → Index
  terminated : ℕ → Index

pub record Report : Type 0 where
  pub correct : ℕ
  pub perfindex : Index

unfoldable pub report : List Stats × World → Report
unfolding count_correct total_ops
report (stats, w) = record {
  correct = count_correct stats;
  perfindex = if w.errors == 0 then computed (total_ops stats) stats else terminated w.errors;
}

unfoldable pub tracefiles : List Bytes → Option Bytes → List Bytes
tracefiles default_tracefiles none = default_tracefiles
tracefiles default_tracefiles (some file) = file ∷ []

unfoldable pub start_world : Environment → Mem → World
start_world env m = record {
  machine = record { mem = m; bytes = env.bytes };
  ranges = [];
  errors = 0;
  blocks = env.fresh;
  block_sizes = env.fresh;
}

-- `mem_init`, the evaluation and the report
unfoldable pub run_mm : Environment → Package → Bytes → List Bytes → Progress Report
unfolding or_quits mem_init start_world eval_files report
run_mm env pk tracedir names = do
  m ← or_quits (mem_init env.region)
  a ← eval_files env pk tracedir names (start_world env m)
  done (report a)

-- `if (run_libc)`
unfoldable pub run_libc_first :
    {M : Type 0} → Allocator M → Bool → Environment → Bytes → List Bytes → LibcRun M → Progress Unit
unfolding libc_files
run_libc_first libc asked env tracedir names r =
    let more = libc_files libc env tracedir names r >>= λ _. done tt in
    if asked then more else done tt

-- `main`, with the defaults of config.h for the arguments and the names of the trace files
unfoldable pub main :
    {M : Type 0}
    → Environment
    → Package
    → Team
    → Allocator M
    → LibcRun M
    → Arguments
    → List Bytes
    → List Flag
    → Progress Report
unfolding read_flags check_team tracefiles run_libc_first run_mm
main env pk team libc r defaults default_tracefiles flags = do
  a ← read_flags flags defaults
  _ ← check_team a.team_check team
  _ ← run_libc_first libc a.run_libc env a.tracedir (tracefiles default_tracefiles a.tracefile) r
  run_mm env pk a.tracedir (tracefiles default_tracefiles a.tracefile)
