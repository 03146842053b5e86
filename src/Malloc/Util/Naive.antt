-- ===== src/Malloc/Util/Naive.antt =====
-- mdriver.c, `eval_mm_util` on mm.c: the naive package never gets above a utilisation of 1.
use decs.Malloc.Driver.Naive.{mm_malloc_int}
use decs.Base.Words.{to_size_t, to_int}
use decs.Malloc.Memlib.{Mem, mem_reset_brk, mem_heapsize, max_heap}
use decs.Malloc.Mm.Blocks.{align8_bounds, align8_idem, mm_malloc_fits, sbrk_size_t_fits}
use decs.Malloc.Package.{Machine, Package}
use decs.Malloc.Util.Peak.{AreInts, AreInts-update, to_int_nonneg}
use decs.Malloc.Memlib.Bounds.{IsMem}
use decs.Base.Int.{ℤ, ◌+ℤ◌, pos, ◌≤ℤ◌, negsuc, ◌-ℤ◌, int_laws, -ℤ_parts}
use decs.Malloc.Mm.{mm_realloc, mm_free, align8, mm, mm_init}
use decs.Malloc.Util.{
  Usage, grow, put_block, util_alloc, util_realloc, util_free, util_op, util_ops, eval_mm_util,
  run_util, restart, no_usage,
}
use decs.Malloc.Driver.{OpType, TraceOp, World, free, alloc, realloc}
use decs.Base.{
  ℕ, refl, List, ◌-◌, Option, ◌∷◌, ◌≡◌, ◌<◌, ◌+◌, some, ◌^◌, arith, [], ◌≤◌, Bool-cases, ◌==◌, inl,
  inr, ◌≢◌, All, ◌%◌, ◌∙◌,
}

-- A request for a positive number of bytes, or a free.
abbrev pub IsRequest : OpType → ℤ → Type 0
IsRequest free size = Unit
IsRequest alloc (pos n) = (0 < n) × (n < 2 ^ 31)
IsRequest alloc (negsuc n) = ⊥
IsRequest realloc (pos n) = (0 < n) × (n < 2 ^ 31)
IsRequest realloc (negsuc n) = ⊥

-- The bytes by which the naive package moves the break for a request.
abbrev pub rounded : OpType → ℤ → ℕ
rounded free size = 0
rounded alloc (pos n) = align8 n
rounded alloc (negsuc n) = 0
rounded realloc (pos n) = align8 n
rounded realloc (negsuc n) = 0

abbrev pub total_rounded : List TraceOp → ℕ
total_rounded [] = 0
total_rounded (op ∷ ops) = rounded op.type op.size + total_rounded ops

abbrev heap_used : Usage → ℕ
heap_used u = u.world.machine.mem.brk - u.world.machine.mem.start_brk

-- The live bytes and their mark are at most the size of the heap.
record IsLean (u : Usage) : Type 0 where
  mem : IsMem u.world.machine.mem
  ints : AreInts u.world.block_sizes
  total_le : u.total ≤ℤ pos (heap_used u)
  high_le : u.high ≤ℤ pos (heap_used u)

record Runs (u : Usage) (moved : ℕ) (r : Option Usage) : Type 0 where
  after : Usage
  goes : r ≡ some after
  lean : IsLean after
  start : after.world.machine.mem.start_brk ≡ u.world.machine.mem.start_brk
  brk : after.world.machine.mem.brk ≡ u.world.machine.mem.brk + moved

grow_le :
    (by : ℤ) (u : Usage) (w : World) (k d : ℕ)
    → u.total ≤ℤ pos k
    → u.high ≤ℤ pos k
    → by ≤ℤ pos d
    → ((grow by (record u { world = w })).total ≤ℤ pos (k + d))
      × ((grow by (record u { world = w })).high ≤ℤ pos (k + d))
unfolding grow ◌+ℤ◌
grow_le by u w k d t h b = (ground arith, ground arith)

-- `mm_realloc` of a positive size that fits takes a fresh block at the break, whatever the pointer.
mm_realloc_fits :
    (p n : ℕ) (h : Machine)
    → IsMem h.mem
    → 0 < n
    → n < 2 ^ 31
    → h.mem.brk + align8 n ≤ h.mem.max_addr
    → mm_realloc p n h
      ≡ (h.mem.brk, record h { mem = record (h.mem) { brk = h.mem.brk + align8 n } })
unfolding mm_realloc mm_free
mm_realloc_fits p n h v positive small room =
    let le = align8_bounds n (omega arith) in
    let twice = align8_idem n (omega arith) in
    let fits : align8 n < 2 ^ 31 - 8 = omega (arith, v) in
    elim (Bool-cases (p == 0)) [
      | inl null ↦
          rw null (rw twice at (mm_malloc_fits (align8 n) h (omega arith) fits (rw twice room)))
      | inr nonnull ↦ ground (arith, sbrk_size_t_fits (align8 n) h (omega arith) room)
    ]

-- The usage after the naive package has put a block of `n` bytes at the break.
abbrev placed : ℕ → ℕ → ℤ → Usage → Usage
placed index n by u =
    let m = u.world.machine.mem in
    let h = record (u.world.machine) { mem = record m { brk = m.brk + align8 n } } in
    grow by (record u { world = put_block index m.brk (pos n) h u.world })

placed-IsLean :
    (index n : ℕ) (by : ℤ) {u : Usage}
    → IsLean u
    → n < 2 ^ 31
    → by ≤ℤ pos n
    → u.world.machine.mem.brk + align8 n ≤ u.world.machine.mem.max_addr
    → IsLean (placed index n by u)
unfolding grow
placed-IsLean index n by {u} lean small le room =
    let m = u.world.machine.mem in
    let h = record (u.world.machine) { mem = record m { brk = m.brk + align8 n } } in
    let bounds = align8_bounds n (omega arith) in
    let used : heap_used u + align8 n ≡ heap_used (placed index n by u) = omega (arith, lean.mem) in
    let sums =
      grow_le by u (put_block index m.brk (pos n) h u.world) (heap_used u) (align8 n) lean.total_le
        lean.high_le (omega (arith, le, bounds)) in
    record {
      mem = record {
        nonnull = lean.mem.nonnull;
        above = omega (arith, lean.mem);
        below = room;
        region = lean.mem.region;
        addressable = lean.mem.addressable;
      };
      ints = AreInts-update u.world.block_sizes index (pos n) lean.ints small;
      total_le = rw (← used) sums.0;
      high_le = rw (← used) sums.1;
    }

-- A block of the naive package never starts at `NULL`.
brk_nonzero : {m : Mem} → IsMem m → m.brk ≢ 0
brk_nonzero v = omega (arith, v)

util_alloc_going :
    (pk : Package) (index n p : ℕ) (u : Usage) (h : Machine)
    → pk.malloc (to_size_t (pos n)) u.world.machine ≡ (p, h)
    → p ≢ 0
    → util_alloc pk index (pos n) u
      ≡ some (grow (pos n) (record u { world = put_block index p (pos n) h u.world }))
unfolding util_alloc
util_alloc_going pk index n p u h got nonnull = ground arith

util_realloc_going :
    (pk : Package) (index n p : ℕ) (u : Usage) (h : Machine)
    → pk.realloc (u.world.blocks index) (to_size_t (pos n)) u.world.machine ≡ (p, h)
    → p ≢ 0
    → util_realloc pk index (pos n) u
      ≡ some (
          grow
            (pos n -ℤ to_int (u.world.block_sizes index))
            (record u { world = put_block index p (pos n) h u.world }))
unfolding util_realloc
util_realloc_going pk index n p u h got nonnull = ground arith

util_alloc-Runs :
    (index n : ℕ) {u : Usage}
    → IsLean u
    → 0 < n
    → n < 2 ^ 31
    → u.world.machine.mem.brk + align8 n ≤ u.world.machine.mem.max_addr
    → Runs u (align8 n) (util_alloc mm index (pos n) u)
util_alloc-Runs index n {u} lean positive small room = record {
  after = placed index n (pos n) u;
  goes =
      util_alloc_going mm index n _ u _
        (mm_malloc_int n u.world.machine positive small lean.mem room) (brk_nonzero lean.mem);
  lean = placed-IsLean index n (pos n) lean small (omega arith) room;
  start = unfold grow in refl;
  brk = unfold grow in refl;
}

util_realloc-Runs :
    (index n : ℕ) {u : Usage}
    → IsLean u
    → 0 < n
    → n < 2 ^ 31
    → u.world.machine.mem.brk + align8 n ≤ u.world.machine.mem.max_addr
    → Runs u (align8 n) (util_realloc mm index (pos n) u)
util_realloc-Runs index n {u} lean positive small room =
    let whole : n % 2 ^ 64 ≡ n = omega arith in
    let old = to_int (u.world.block_sizes index) in
    let back = to_int_nonneg (u.world.block_sizes index) (lean.ints index) in
    let got =
      mm_realloc_fits (u.world.blocks index) n u.world.machine lean.mem positive small room in
    record {
      after = placed index n (pos n -ℤ old) u;
      goes = util_realloc_going mm index n _ u _ (rw whole got) (brk_nonzero lean.mem);
      lean =
          placed-IsLean index n (pos n -ℤ old) lean small (omega (int_laws, -ℤ_parts (pos n) old))
            room;
      start = unfold grow in refl;
      brk = unfold grow in refl;
    }

util_free-Runs : (index : ℕ) {u : Usage} → IsLean u → Runs u 0 (util_free mm index u)
unfolding util_free mm_free
util_free-Runs index {u} lean =
    let old = to_int (u.world.block_sizes index) in
    let back = to_int_nonneg (u.world.block_sizes index) (lean.ints index) in
    record {
      after = record u { total = u.total -ℤ old };
      goes = refl;
      lean = record {
        mem = lean.mem;
        ints = lean.ints;
        total_le = omega (int_laws, -ℤ_parts u.total old, lean.total_le);
        high_le = lean.high_le;
      };
      start = refl;
      brk = omega arith;
    }

util_op-Runs :
    (type : OpType) (index : ℕ) (size : ℤ) {u : Usage}
    → IsLean u
    → IsRequest type size
    → u.world.machine.mem.brk + rounded type size ≤ u.world.machine.mem.max_addr
    → Runs u (rounded type size) (util_op mm type index size u)
unfolding util_op
util_op-Runs alloc index (pos n) lean is room = util_alloc-Runs index n lean is.0 is.1 room
util_op-Runs alloc index (negsuc n) lean is room = absurd is
util_op-Runs realloc index (pos n) lean is room = util_realloc-Runs index n lean is.0 is.1 room
util_op-Runs realloc index (negsuc n) lean is room = absurd is
util_op-Runs free index size lean is room = util_free-Runs index lean

util_ops-Runs :
    (ops : List TraceOp) {u : Usage}
    → IsLean u
    → All (λ op. IsRequest op.type op.size) ops
    → u.world.machine.mem.brk + total_rounded ops ≤ u.world.machine.mem.max_addr
    → Runs u (total_rounded ops) (util_ops mm ops u)
unfolding util_ops
util_ops-Runs [] {u} lean is room = record {
  after = u;
  goes = refl;
  lean = lean;
  start = refl;
  brk = omega arith;
}
util_ops-Runs (op ∷ ops) {u} lean is room =
    let one = util_op-Runs op.type op.index op.size lean is.0 (omega arith) in
    let rest =
      util_ops-Runs ops one.lean is.1 (omega (arith, one.lean.mem.region, lean.mem.region)) in
    record {
      after = rest.after;
      goes = ground (arith, one.goes, rest.goes);
      lean = rest.lean;
      start = rest.start ∙ one.start;
      brk = omega (arith, rest.brk, one.brk);
    }

-- On a trace of positive allocations and reallocations and of frees whose sizes, each rounded up to 8,
-- fit together in the heap, started with a well-formed region of the heap and with recorded block
-- sizes that fit an `int`, `eval_mm_util` on the naive package comes to its end: its denominator is
-- the sum of the rounded sizes, and its numerator, the high water mark, is at most that sum. The
-- totals are integers here, so this is about runs in which the `int` totals do not overflow.
pub eval_mm_util_naive :
    (ops : List TraceOp) (w : World)
    → IsMem w.machine.mem
    → AreInts w.block_sizes
    → All (λ op. IsRequest op.type op.size) ops
    → total_rounded ops ≤ max_heap
    → (high : ℤ) × (eval_mm_util mm ops w ≡ some (high, total_rounded ops))
      × (high ≤ℤ pos (total_rounded ops))
unfolding eval_mm_util run_util restart mem_reset_brk mm_init mem_heapsize
eval_mm_util_naive ops w v ints is fits =
    let m : Mem = record (w.machine.mem) { brk = w.machine.mem.start_brk } in
    let u = no_usage (record w { machine = record (w.machine) { mem = m } }) in
    let lean : IsLean u = record {
      mem = record {
        nonnull = v.nonnull;
        above = omega arith;
        below = omega (arith, v.region);
        region = v.region;
        addressable = v.addressable;
      };
      ints = ints;
      total_le = omega arith;
      high_le = omega arith;
    } in
    let run = util_ops-Runs ops lean is (omega (arith, v.region)) in
    let size : mem_heapsize run.after.world.machine.mem ≡ total_rounded ops =
      omega (arith, run.lean.mem, run.start, run.brk) in
    (
      run.after.high,
      rw run.goes (ground (arith, size)),
      omega (arith, run.lean.high_le, run.start, run.brk),
    )
