-- ===== src/Malloc/Speed.antt =====
-- assignment-3/PA_3_handout/mdriver.c: the timed runs `eval_mm_speed` and `eval_libc_speed`, and the
-- check `eval_libc_valid` of the C library's own allocator, which is an argument.
pub mod Agreement
use decs.Base.Words.{to_size_t}
use decs.Base.Int.{ℤ}
use decs.Malloc.Driver.{OpType, TraceOp, World, update, alloc, realloc, free}
use decs.Malloc.Util.{restart}
use decs.Malloc.Package.{Package}
use decs.Base.{ℕ, suc, List, ◌∷◌, Option, if◌then◌else◌, [], ◌==◌, some, none, ◌+◌}

unfoldable pub speed_op : Package → OpType → ℕ → ℤ → World → Option World
speed_op pk alloc index size w =
    let (p, h) = pk.malloc (to_size_t size) w.machine in
    if p == 0 then none else some (record w { machine = h; blocks = update w.blocks index p })
speed_op pk realloc index size w =
    let (newp, h) = pk.realloc (w.blocks index) (to_size_t size) w.machine in
    if newp == 0 then none else some (record w { machine = h; blocks = update w.blocks index newp })
speed_op pk free index size w = some (record w { machine = pk.free (w.blocks index) w.machine })

unfoldable pub speed_ops : Package → List TraceOp → World → Option World
unfolding speed_op
speed_ops pk [] w = some w
speed_ops pk (op ∷ ops) w =
    let next = speed_op pk op.type op.index op.size w in
    elim next [ none ↦ none | some v ↦ speed_ops pk ops v ]

-- `none` is the exit in `app_error`.
unfoldable pub eval_mm_speed : Package → List TraceOp → World → Option World
unfolding restart speed_ops
eval_mm_speed pk ops w = elim (restart pk w) [ none ↦ none | some v ↦ speed_ops pk ops v ]

-- The C library's `malloc`, `free` and `realloc`, on whatever state the library keeps.
pub record Allocator (M : Type 0) : Type 0 where
  pub malloc : ℕ → M → ℕ × M
  pub free : ℕ → M → M
  pub realloc : ℕ → ℕ → M → ℕ × M

pub record LibcRun (M : Type 0) : Type 0 where
  pub state : M
  pub blocks : ℕ → ℕ
  pub errors : ℕ

-- A run of the library ends in `unix_error`, with the counter of errors at that point, or goes on.
pub data LibcOutcome (M : Type 0) : Type 0 where
  exited : ℕ → LibcOutcome M
  went_on : LibcRun M → LibcOutcome M

module _ {M : Type 0} (libc : Allocator M) where
  unfoldable pub libc_valid_op : OpType → ℕ → ℤ → LibcRun M → LibcOutcome M
  libc_valid_op alloc index size r =
      let (p, s) = libc.malloc (to_size_t size) r.state in
      if p == 0
      then exited (r.errors + 1)
      else went_on (record r { state = s; blocks = update r.blocks index p })
  libc_valid_op realloc index size r =
      let (newp, s) = libc.realloc (r.blocks index) (to_size_t size) r.state in
      if newp == 0
      then exited (r.errors + 1)
      else went_on (record r { state = s; blocks = update r.blocks index newp })
  libc_valid_op free index size r =
      went_on (record r { state = libc.free (r.blocks index) r.state })

  -- The return of 1 is `went_on`.
  unfoldable pub eval_libc_valid : List TraceOp → LibcRun M → LibcOutcome M
  unfolding libc_valid_op
  eval_libc_valid [] r = went_on r
  eval_libc_valid (op ∷ ops) r =
      let next = libc_valid_op op.type op.index op.size r in
      elim next [ exited e ↦ exited e | went_on v ↦ eval_libc_valid ops v ]

  unfoldable pub libc_speed_op : OpType → ℕ → ℤ → LibcRun M → LibcOutcome M
  libc_speed_op alloc index size r =
      let (p, s) = libc.malloc (to_size_t size) r.state in
      if p == 0
      then exited r.errors
      else went_on (record r { state = s; blocks = update r.blocks index p })
  libc_speed_op realloc index newsize r =
      let (newp, s) = libc.realloc (r.blocks index) (to_size_t newsize) r.state in
      if newp == 0
      then exited r.errors
      else went_on (record r { state = s; blocks = update r.blocks index newp })
  libc_speed_op free index size r =
      went_on (record r { state = libc.free (r.blocks index) r.state })

  unfoldable pub eval_libc_speed : List TraceOp → LibcRun M → LibcOutcome M
  unfolding libc_speed_op
  eval_libc_speed [] r = went_on r
  eval_libc_speed (op ∷ ops) r =
      let next = libc_speed_op op.type op.index op.size r in
      elim next [ exited e ↦ exited e | went_on v ↦ eval_libc_speed ops v ]
