-- ===== src/Malloc/Util.antt =====
-- assignment-3/PA_3_handout/mdriver.c: `eval_mm_util`, which runs a trace and compares the high water
-- mark of the live bytes with the size of the heap. The totals are C `int`s, taken as integers: the model is
-- about runs in which they stay in the range of an `int`.
pub mod Naive
pub mod Peak
use mathlib.Core.Option
use decs.Base.Words.{to_size_t, to_int}
use decs.Malloc.Memlib.{mem_reset_brk, mem_heapsize}
use decs.Malloc.Package.{Package, Machine}
use decs.Base.Int.{ℤ, ◌+ℤ◌, pos, ltb_ℤ, ◌-ℤ◌}
use decs.Malloc.Driver.{World, OpType, update, TraceOp, alloc, realloc, free}
use decs.Base.{ℕ, suc, if◌then◌else◌, Option, List, ◌==◌, some, none, ◌∷◌, []}

-- The run: the world, `total_size` and `max_total_size`.
pub record Usage : Type 0 where
  pub world : World
  pub total : ℤ
  pub high : ℤ

abbrev pub peak : ℤ → ℤ → ℤ
peak total high = if ltb_ℤ high total then total else high

-- `total_size += by`, and the update of the statistics
unfoldable pub grow : ℤ → Usage → Usage
grow by u = let total = u.total +ℤ by in record u { total = total; high = peak total u.high }

abbrev pub put_block : ℕ → ℕ → ℤ → Machine → World → World
put_block index p size h w = record w {
  machine = h;
  blocks = update w.blocks index p;
  block_sizes = update w.block_sizes index (to_size_t size);
}

-- `none` is the exit in `app_error`.
unfoldable pub util_alloc : Package → ℕ → ℤ → Usage → Option Usage
unfolding grow
util_alloc pk index size u =
    let (p, h) = pk.malloc (to_size_t size) u.world.machine in
    if p == 0
    then none
    else some (grow size (record u { world = put_block index p size h u.world }))

unfoldable pub util_realloc : Package → ℕ → ℤ → Usage → Option Usage
unfolding grow
util_realloc pk index newsize u =
    let oldsize = to_int (u.world.block_sizes index) in
    let (newp, h) = pk.realloc (u.world.blocks index) (to_size_t newsize) u.world.machine in
    if newp == 0
    then none
    else some
        (grow (newsize -ℤ oldsize) (record u { world = put_block index newp newsize h u.world }))

unfoldable pub util_free : Package → ℕ → Usage → Option Usage
util_free pk index u =
    let size = to_int (u.world.block_sizes index) in
    some (record u {
      world = record (u.world) { machine = pk.free (u.world.blocks index) u.world.machine };
      total = u.total -ℤ size;
    })

unfoldable pub util_op : Package → OpType → ℕ → ℤ → Usage → Option Usage
unfolding util_alloc util_realloc util_free
util_op pk alloc index size u = util_alloc pk index size u
util_op pk realloc index size u = util_realloc pk index size u
util_op pk free index size u = util_free pk index u

unfoldable pub util_ops : Package → List TraceOp → Usage → Option Usage
unfolding util_op
util_ops pk [] u = some u
util_ops pk (op ∷ ops) u =
    let next = util_op pk op.type op.index op.size u in
    elim next [ none ↦ none | some v ↦ util_ops pk ops v ]

-- `mem_reset_brk` and `mm_init`
unfoldable pub restart : Package → World → Option World
unfolding mem_reset_brk
restart pk w =
    let (status, h) = pk.init (record (w.machine) { mem = mem_reset_brk w.machine.mem }) in
    if ltb_ℤ status (pos 0) then none else some (record w { machine = h })

abbrev pub no_usage : World → Usage
no_usage w = record { world = w; total = pos 0; high = pos 0 }

unfoldable pub run_util : Package → List TraceOp → World → Option Usage
unfolding restart util_ops
run_util pk ops w = elim (restart pk w) [ none ↦ none | some v ↦ util_ops pk ops (no_usage v) ]

-- The two parts of the quotient that `eval_mm_util` returns.
unfoldable pub eval_mm_util : Package → List TraceOp → World → Option (ℤ × ℕ)
unfolding run_util mem_heapsize
eval_mm_util pk ops w =
    Option.map (λ u. (u.high, mem_heapsize u.world.machine.mem)) (run_util pk ops w)
