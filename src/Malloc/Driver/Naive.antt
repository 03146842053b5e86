-- ===== src/Malloc/Driver/Naive.antt =====
-- mdriver.c on mm.c: the naive package passes every trace of allocations and frees that fits in the
-- heap.
use decs.Malloc.Ranges.Removal.{remove_range-All, remove_range-Pairwise}
use decs.Malloc.Package.{Package, Machine}
use decs.Malloc.Mm.Blocks.{mm_realloc-IsMem, align8_bounds, mm_malloc_fits}
use decs.Malloc.Ranges.Checks.{Disjoint, extent, add_range-accepts}
use decs.Malloc.Driver.Verdict.{Honest}
use decs.Base.Int.{pos, ℤ, negsuc}
use decs.Malloc.Memlib.{Mem, mem_reset_brk, max_heap}
use decs.Base.Words.{to_size_t, to_int}
use decs.Malloc.Ranges.{Range, add_range, accepted, remove_range, clear_ranges}
use decs.Malloc.Memlib.Bounds.{IsMem, Grows-refl, mem_sbrk-IsMem}
use decs.Malloc.Driver.{
  TraceOp, World, eval_alloc, Outcome, check_range, alloc, record_range, going, remember, free,
  realloc, eval_free, eval_op, OpType, dispatch, eval_ops, eval_mm_valid, start_run,
}
use decs.Malloc.Mm.{mm_init, align8, mm_malloc, mm_free, sbrk_size_t, mm}
use decs.Base.{
  ℕ, refl, List, ◌∷◌, ◌≡◌, ◌+◌, ◌%◌, All, ◌<◌, [], ◌^◌, Pairwise, ◌≤◌, arith, All-mono, ◌≢◌, inr,
  ◌∙◌,
}

pub mm-Honest : Honest mm
unfolding mm_init mm_malloc mm_free sbrk_size_t
mm-Honest = record {
  init_keeps = λ h v. (v, Grows-refl h.mem);
  malloc_keeps = λ size h v. ground (arith, mem_sbrk-IsMem (to_int (align8 size)) v);
  free_keeps = λ p h v. (v, Grows-refl h.mem);
  realloc_keeps = λ p size h v. let r = mm_realloc-IsMem p size h v in (r.0, r.1);
}

-- A request that allocates a positive number of bytes, or frees.
abbrev pub IsPlain : OpType → ℤ → Type 0
IsPlain alloc (pos n) = (0 < n) × (n < 2 ^ 31)
IsPlain alloc (negsuc n) = ⊥
IsPlain free size = Unit
IsPlain realloc size = ⊥

-- The bytes by which such a request moves the break.
abbrev pub demand : OpType → ℤ → ℕ
demand alloc (pos n) = align8 n
demand alloc (negsuc n) = 0
demand free size = 0
demand realloc size = 0

abbrev pub total_demand : List TraceOp → ℕ
total_demand [] = 0
total_demand (op ∷ ops) = demand op.type op.size + total_demand ops

-- The recorded payloads lie below the break, no two of them share an address, and the break is a
-- multiple of 8.
pub record IsCalm (w : World) : Type 0 where
  pub mem : IsMem w.machine.mem
  pub aligned : w.machine.mem.brk % 8 ≡ 0
  pub under : All (λ p. p.hi < w.machine.mem.brk) w.ranges
  pub apart : Pairwise Disjoint w.ranges

-- What a step of the run gives: it goes on, with the counter of errors as it was and the break moved.
pub record Proceeds (w : World) (moved : ℕ) (r : Outcome) : Type 0 where
  pub after : World
  pub goes : r ≡ going after
  pub calm : IsCalm after
  pub errors : after.errors ≡ w.errors
  pub start : after.machine.mem.start_brk ≡ w.machine.mem.start_brk
  pub brk : after.machine.mem.brk ≡ w.machine.mem.brk + moved

-- A block at the break passes the checks of `add_range`.
pub add_range_at_brk :
    (ranges : List Range) (n k : ℕ) {m : Mem}
    → IsMem m
    → m.brk % 8 ≡ 0
    → 0 < n
    → n ≤ k
    → m.brk + k ≤ m.max_addr
    → All (λ p. p.hi < m.brk) ranges
    → add_range ranges m.brk n (record m { brk = m.brk + k }) ≡ accepted (extent m.brk n ∷ ranges)
add_range_at_brk ranges n k {m} v aligned positive le room under =
    add_range-accepts ranges m.brk n
      (record {
        nonnull = v.nonnull;
        above = omega (arith, v.above);
        below = room;
        region = v.region;
        addressable = v.addressable;
      })
      positive
      (record {
        aligned = aligned;
        from = v.above;
        upto = omega arith;
        misses = All-mono ranges (λ p h. ground arith) under;
      })

eval_alloc_going :
    (pk : Package) (index n p : ℕ) (w : World) (h : Machine) (rs : List Range)
    → pk.malloc (to_size_t (pos n)) w.machine ≡ (p, h)
    → p ≢ 0
    → 0 < n
    → add_range w.ranges p n h.mem ≡ accepted rs
    → eval_alloc pk index (pos n) w
      ≡ going (remember index p (pos n) (record w { machine = h; ranges = rs }))
unfolding eval_alloc check_range record_range
eval_alloc_going pk index n p w h rs got nonnull positive fits = ground arith

pub mm_malloc_int :
    (n : ℕ) (h : Machine)
    → 0 < n
    → n < 2 ^ 31
    → IsMem h.mem
    → h.mem.brk + align8 n ≤ h.mem.max_addr
    → mm_malloc (to_size_t (pos n)) h
      ≡ (h.mem.brk, record h { mem = record (h.mem) { brk = h.mem.brk + align8 n } })
mm_malloc_int n h positive small v room =
    let whole : n % 2 ^ 64 ≡ n = omega arith in
    rw whole (mm_malloc_fits n h positive (omega (arith, v, align8_bounds n (omega arith))) room)

eval_alloc-Proceeds :
    (index n : ℕ) {w : World}
    → IsCalm w
    → 0 < n
    → n < 2 ^ 31
    → w.machine.mem.brk + align8 n ≤ w.machine.mem.max_addr
    → Proceeds w (align8 n) (eval_alloc mm index (pos n) w)
unfolding remember
eval_alloc-Proceeds index n {w} c positive small room =
    let m = w.machine.mem in
    let le = align8_bounds n (omega arith) in
    let m' : Mem = record m { brk = m.brk + align8 n } in
    let h : Machine = record (w.machine) { mem = m' } in
    let rs = extent m.brk n ∷ w.ranges in
    record {
      after = remember index m.brk (pos n) (record w { machine = h; ranges = rs });
      goes =
          eval_alloc_going mm index n m.brk w h rs
            (mm_malloc_int n w.machine positive small c.mem room) (omega (arith, c.mem)) positive
            (add_range_at_brk w.ranges n (align8 n) c.mem c.aligned positive le.1 room c.under);
      calm = record {
        mem = record {
          nonnull = c.mem.nonnull;
          above = omega (arith, c.mem);
          below = room;
          region = c.mem.region;
          addressable = c.mem.addressable;
        };
        aligned = omega (arith, c.aligned);
        under = (omega arith, All-mono w.ranges (λ p b. omega arith) c.under);
        apart = (All-mono w.ranges (λ p b. inr b) c.under, c.apart);
      };
      errors = refl;
      start = refl;
      brk = refl;
    }

eval_free-Proceeds : (index : ℕ) {w : World} → IsCalm w → Proceeds w 0 (eval_free mm index w)
unfolding eval_free mm_free
eval_free-Proceeds index {w} c = record {
  after = record w { ranges = remove_range w.ranges (w.blocks index) };
  goes = refl;
  calm = record {
    mem = c.mem;
    aligned = c.aligned;
    under = remove_range-All _ w.ranges (w.blocks index) c.under;
    apart = remove_range-Pairwise _ w.ranges (w.blocks index) c.apart;
  };
  errors = refl;
  start = refl;
  brk = omega arith;
}

dispatch-Proceeds :
    (type : OpType) (index : ℕ) (size : ℤ) {w : World}
    → IsCalm w
    → IsPlain type size
    → w.machine.mem.brk + demand type size ≤ w.machine.mem.max_addr
    → Proceeds w (demand type size) (dispatch mm type index size w)
unfolding dispatch
dispatch-Proceeds alloc index (pos n) c plain room =
    eval_alloc-Proceeds index n c plain.0 plain.1 room
dispatch-Proceeds alloc index (negsuc n) c plain room = absurd plain
dispatch-Proceeds realloc index size c plain room = absurd plain
dispatch-Proceeds free index size c plain room = eval_free-Proceeds index c

eval_ops-Proceeds :
    (ops : List TraceOp) {w : World}
    → IsCalm w
    → All (λ op. IsPlain op.type op.size) ops
    → w.machine.mem.brk + total_demand ops ≤ w.machine.mem.max_addr
    → Proceeds w (total_demand ops) (eval_ops mm ops w)
unfolding eval_ops eval_op
eval_ops-Proceeds [] {w} c plain room = record {
  after = w;
  goes = refl;
  calm = c;
  errors = refl;
  start = refl;
  brk = omega arith;
}
eval_ops-Proceeds (op ∷ ops) {w} c plain room =
    let one = dispatch-Proceeds op.type op.index op.size c plain.0 (omega arith) in
    let rest = eval_ops-Proceeds ops one.calm plain.1 (omega (arith, one.calm.mem.region)) in
    record {
      after = rest.after;
      goes = rw one.goes rest.goes;
      calm = rest.calm;
      errors = rest.errors ∙ one.errors;
      start = rest.start ∙ one.start;
      brk = omega (arith, rest.brk, one.brk);
    }

-- On a trace of positive allocations and of frees whose sizes, each rounded up to 8, fit together in
-- the heap, `eval_mm_valid` returns 1 for the naive package. It reports no error; the recorded
-- payloads share no address; and the break ends at the start of the heap plus the rounded sizes,
-- since no block is ever reused.
pub eval_mm_valid_naive :
    (ops : List TraceOp) (w : World)
    → IsMem w.machine.mem
    → w.machine.mem.start_brk % 8 ≡ 0
    → All (λ op. IsPlain op.type op.size) ops
    → total_demand ops ≤ max_heap
    → (w' : World) × (eval_mm_valid mm ops w ≡ going w')
      × (w'.errors ≡ w.errors)
      × Pairwise Disjoint w'.ranges
      × (w'.machine.mem.brk ≡ w.machine.mem.start_brk + total_demand ops)
unfolding eval_mm_valid start_run mem_reset_brk clear_ranges mm_init
eval_mm_valid_naive ops w v aligned plain fits =
    let m : Mem = record (w.machine.mem) { brk = w.machine.mem.start_brk } in
    let u : World = record w { machine = record (w.machine) { mem = m }; ranges = [] } in
    let calm : IsCalm u = record {
      mem = record {
        nonnull = v.nonnull;
        above = omega arith;
        below = omega (arith, v.region);
        region = v.region;
        addressable = v.addressable;
      };
      aligned = aligned;
      under = tt;
      apart = tt;
    } in
    let run = eval_ops-Proceeds ops calm plain (omega (arith, v.region)) in
    (run.after, run.goes, run.errors, run.calm.apart, run.brk)
