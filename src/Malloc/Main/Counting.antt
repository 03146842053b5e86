-- ===== src/Malloc/Main/Counting.antt =====
-- mdriver.c, `main`: each trace file is correct or counted as one error.
use decs.Malloc.Memlib.{mem_init}
use decs.Malloc.Util.{Usage, run_util}
use mathlib.Core.Path.{subst}
use decs.Base.{
  ℕ, refl, ◌≡◌, List, ◌∷◌, [], if◌then◌else◌, Option, suc, ◌+◌, some, none, zero, length, ◌<◌,
  Bool-cases, arith, ◌==◌, ◌++◌, inl, inr,
}
use decs.Text.{Bytes}
use decs.Malloc.Package.{Package}
use decs.Malloc.Driver.{World, TraceOp, Outcome, eval_mm_valid, going, failed, aborted}
use decs.Malloc.Speed.{eval_mm_speed, Allocator, LibcRun}
use decs.Malloc.Trace.{Trace, read_trace}
use decs.Malloc.Main.{
  ◌>>=◌, Progress, done, quits, asserts, misuses, Stats, Flag, Arguments, Team, from_reading,
  eval_valid, read_flags, check_team, or_quits, time_runs,
}
use decs.Malloc.Main.Driving.{
  Environment, eval_file, eval_files, count_correct, report, Report, Index, computed, terminated,
  run_mm, run_libc_first, tracefiles, main, start_world,
}
use decs.Malloc.Main.Steady.{Keeps, UsageKeeps, run_util-UsageKeeps, eval_mm_speed-Keeps}
use decs.Malloc.Main.Errors.{Adds, eval_mm_valid-Adds}

-- What holds of the result, if there is one
abbrev pub Yields : {A : Type 0} → (A → Type 0) → Progress A → Type 0
Yields P (done a) = P a
Yields P quits = Unit
Yields P asserts = Unit
Yields P misuses = Unit

Yields-bind :
    {A B : Type 0} (P : A → Type 0) (Q : B → Type 0) (r : Progress A) (f : A → Progress B)
    → Yields P r
    → ((a : A) → P a → Yields Q (f a))
    → Yields Q (r >>= f)
Yields-bind P Q (done a) f h next = next a h
Yields-bind P Q quits f h next = tt
Yields-bind P Q asserts f h next = tt
Yields-bind P Q misuses f h next = tt

Yields-after :
    {A B : Type 0} (Q : B → Type 0) (r : Progress A) (f : A → Progress B)
    → ((a : A) → Yields Q (f a))
    → Yields Q (r >>= f)
Yields-after Q (done a) f next = next a
Yields-after Q quits f next = tt
Yields-after Q asserts f next = tt
Yields-after Q misuses f next = tt

Yields-map :
    {A : Type 0} (P Q : A → Type 0) (r : Progress A)
    → ((a : A) → P a → Q a)
    → Yields P r
    → Yields Q r
Yields-map P Q (done a) f h = f a h
Yields-map P Q quits f h = tt
Yields-map P Q asserts f h = tt
Yields-map P Q misuses f h = tt

-- One trace is correct, or adds one error.
abbrev FileCounted : ℕ → Stats × World → Type 0
FileCounted e (s, w) = (if s.valid then 1 else 0) + w.errors ≡ e + 1

abbrev Has : ℕ → World → Type 0
Has e w = w.errors ≡ e

or_quits-Keeps : (e : ℕ) (r : Option World) → Keeps e r → Yields (Has e) (or_quits r)
unfolding or_quits
or_quits-Keeps e none k = tt
or_quits-Keeps e (some w) k = k

time_runs-Keeps :
    (n : ℕ) (pk : Package) (ops : List TraceOp) (w : World) (e : ℕ)
    → w.errors ≡ e
    → Yields (Has e) (time_runs n pk ops w)
unfolding time_runs
time_runs-Keeps zero pk ops w e h = h
time_runs-Keeps (suc n) pk ops w e h =
    let first : Keeps e (eval_mm_speed pk ops w) =
      subst (λ k. Keeps k (eval_mm_speed pk ops w)) h (eval_mm_speed-Keeps pk ops w) in
    Yields-bind (Has e) (Has e) (or_quits (eval_mm_speed pk ops w)) (time_runs n pk ops)
      (or_quits-Keeps e (eval_mm_speed pk ops w) first) (λ v k. time_runs-Keeps n pk ops v e k)

or_quits-UsageKeeps :
    (e : ℕ) (r : Option Usage)
    → UsageKeeps e r
    → Yields (λ (u : Usage). u.world.errors ≡ e) (or_quits r)
unfolding or_quits
or_quits-UsageKeeps e none k = tt
or_quits-UsageKeeps e (some u) k = k

eval_valid_counts :
    (pk : Package) (t : Trace) (r : Outcome) (e : ℕ)
    → Adds e r
    → Yields (FileCounted e) (eval_valid pk t r)
unfolding eval_valid
eval_valid_counts pk t (going w) e h =
    Yields-bind (λ (u : Usage). u.world.errors ≡ e) (FileCounted e) (or_quits (run_util pk t.ops w))
      _
      (or_quits-UsageKeeps e (run_util pk t.ops w)
        (subst (λ k. UsageKeeps k (run_util pk t.ops w)) h (run_util-UsageKeeps pk t.ops w)))
      (λ u k.
        Yields-bind (Has e) (FileCounted e) (time_runs 10 pk t.ops u.world) _
          (time_runs-Keeps 10 pk t.ops u.world e k) (λ v m. omega arith))
eval_valid_counts pk t (failed w) e h = omega (arith, h)
eval_valid_counts pk t aborted e h = tt

eval_file_counts :
    (env : Environment) (pk : Package) (path : Bytes) (w : World)
    → Yields (FileCounted w.errors) (eval_file env pk path w)
unfolding eval_file
eval_file_counts env pk path w =
    let v : World = record w { blocks = env.fresh; block_sizes = env.fresh } in
    Yields-after (FileCounted w.errors) (from_reading (read_trace (env.file path))) _ (λ t.
      eval_valid_counts pk t (eval_mm_valid pk t.ops v) w.errors (eval_mm_valid-Adds pk t.ops v))

-- All of the trace files are correct or add one error each.
abbrev FilesCounted : ℕ → List Stats × World → Type 0
FilesCounted total (stats, w) = count_correct stats + w.errors ≡ total

eval_files_count :
    (env : Environment) (pk : Package) (tracedir : Bytes) (names : List Bytes) (w : World) (e : ℕ)
    → w.errors ≡ e
    → Yields (FilesCounted (e + length names)) (eval_files env pk tracedir names w)
unfolding eval_files count_correct
eval_files_count env pk tracedir [] w e h = omega arith
eval_files_count env pk tracedir (name ∷ names) w e h =
    let total = FilesCounted (e + suc (length names)) in
    Yields-bind (FileCounted w.errors) total (eval_file env pk (tracedir ++ name) w) _
      (eval_file_counts env pk (tracedir ++ name) w)
      (λ a k.
        Yields-bind (FilesCounted (a.1.errors + length names)) total
          (eval_files env pk tracedir names a.1) _
          (eval_files_count env pk tracedir names a.1 a.1.errors refl)
          (λ b m. ground (arith, h, k, m)))

abbrev pub AccountsFor : ℕ → ℕ → Index → Type 0
AccountsFor n correct (computed ops stats) = correct ≡ n
AccountsFor n correct (terminated e) = (0 < e) × (correct + e ≡ n)

-- What a report says of `n` trace files: there were no errors and all of them are correct, or as many
-- errors as files that are not.
abbrev pub Accounts : ℕ → Report → Type 0
Accounts n r = AccountsFor n r.correct r.perfindex

report-Accounts : (n : ℕ) (a : List Stats × World) → FilesCounted n a → Accounts n (report a)
unfolding report
report-Accounts n a h = elim (Bool-cases (a.1.errors == 0)) [
  | inl clean ↦ rw clean (ground (arith, h))
  | inr errors ↦ rw errors (ground arith, h)
]

run_mm-Accounts :
    (env : Environment) (pk : Package) (tracedir : Bytes) (names : List Bytes)
    → Yields (Accounts (length names)) (run_mm env pk tracedir names)
unfolding run_mm start_world
run_mm-Accounts env pk tracedir names =
    let good = Accounts (length names) in
    Yields-after good (or_quits (mem_init env.region)) _ (λ m.
      Yields-bind (FilesCounted (0 + length names)) good
        (eval_files env pk tracedir names (start_world env m)) _
        (eval_files_count env pk tracedir names (start_world env m) 0 refl)
        (λ a k. report-Accounts (length names) a (omega (arith, k))))

-- Where `main` comes to its report, each trace file of the run is either correct or counted as one
-- error, whatever the package does: the performance index is computed only if all of them are
-- correct, and otherwise the number of errors and the number of correct files make up all files. The
-- files are the default ones or the one of `-f`.
pub main-Accounts :
    {M : Type 0} (env : Environment) (pk : Package) (team : Team) (libc : Allocator M)
    (r : LibcRun M) (defaults : Arguments) (default_tracefiles : List Bytes) (flags : List Flag)
    (result : Report)
    → main env pk team libc r defaults default_tracefiles flags ≡ done result
    → (file : Option Bytes) × Accounts (length (tracefiles default_tracefiles file)) result
unfolding main
main-Accounts env pk team libc r defaults default_tracefiles flags result e =
    let good : Report → Type 0 =
      λ x. (file : Option Bytes) × Accounts (length (tracefiles default_tracefiles file)) x in
    let names : Arguments → List Bytes = λ a. tracefiles default_tracefiles a.tracefile in
    let always = Yields-after good (read_flags flags defaults) _ (λ a.
      Yields-after good (check_team a.team_check team) _ (λ _.
        Yields-after good (run_libc_first libc a.run_libc env a.tracedir (names a) r) _ (λ _.
          Yields-map (Accounts (length (names a))) good (run_mm env pk a.tracedir (names a))
            (λ x k. (a.tracefile, k)) (run_mm-Accounts env pk a.tracedir (names a))))) in
    subst (Yields good) e always
