-- ===== src/Malloc/Tests.antt =====
-- The theorems on the malloc laboratory at concrete inputs, and runs of the driver.
use decs.Malloc.Driver.Realloc.{eval_realloc_high}
use decs.Malloc.Mm.Blocks.{mm_malloc_full}
use decs.Malloc.Util.Peak.{Marks, run_util-Marks, IsInt}
use decs.Malloc.Speed.Agreement.{timed, counted, eval_mm_speed-run_util, eval_libc_valid-speed}
use decs.Malloc.Ranges.Checks.{
  Disjoint, extent, add_range-Swallows, Passes, Swallows, add_range_iff, add_range-Disjoint,
}
use decs.Malloc.Util.Naive.{total_rounded, eval_mm_util_naive}
use decs.Malloc.Util.{run_util, restart, eval_mm_util, Usage, no_usage, util_ops}
use decs.Malloc.Speed.{
  eval_mm_speed, Allocator, LibcRun, eval_libc_valid, eval_libc_speed, LibcOutcome,
}
use decs.Malloc.Ranges.{remove_range, add_range, Range, accepted}
use decs.Base.Int.{ℤ, pos, ◌≤ℤ◌, ◌+ℤ◌, ◌-ℤ◌}
use decs.Malloc.Driver.Verdict.{Sound, eval_mm_valid-Sound}
use decs.Malloc.Mm.{align8, mm_malloc, mm_init, mm, mm_free, mm_realloc}
use decs.Malloc.Driver.Naive.{IsCalm, total_demand, mm-Honest, eval_mm_valid_naive}
use decs.Malloc.Memlib.Bounds.{IsMem}
use decs.Malloc.Driver.{
  failed, World, OpType, eval_mm_valid, eval_realloc, TraceOp, alloc, free, realloc, going,
  record_range, check_data,
}
use decs.Malloc.Package.{Machine}
use decs.Malloc.Memlib.{Mem, mem_heap_lo, mem_heap_hi, max_heap, Errno, sbrk_error}
use mathlib.Core.Option
use decs.Base.{
  ℕ, refl, List, All, ◌+◌, [], arith, ◌≡◌, if◌then◌else◌, ◌∷◌, some, ltb, Pairwise, ◌↔◌, ◌≢◌, ◌⊎◌,
  take, suc, zero,
}

abbrev empty_mem : Mem
empty_mem = record { start_brk = 4096; brk = 4096; max_addr = 4096 + max_heap; errno = Errno.unset }

abbrev empty_machine : Machine
empty_machine = record { mem = empty_mem; bytes = λ _. 0 }

abbrev empty_world : World
empty_world = record {
  machine = empty_machine;
  ranges = [];
  errors = 0;
  blocks = λ _. 0;
  block_sizes = λ _. 0;
}

abbrev request : OpType → ℕ → ℕ → TraceOp
request type index size = record { type = type; index = index; size = pos size }

-- Two blocks, a free and a third block.
abbrev plain_trace : List TraceOp
plain_trace = request alloc 0 16 ∷ request alloc 1 100 ∷ request free 0 0 ∷ request alloc 2 7 ∷ []

abbrev mixed_trace : List TraceOp
mixed_trace = request alloc 0 16 ∷ request realloc 0 40 ∷ request free 0 0 ∷ []

empty_mem-IsMem : IsMem empty_mem
empty_mem-IsMem = omega arith

empty_world-IsCalm : IsCalm empty_world
empty_world-IsCalm = omega arith

plain_demand : total_demand plain_trace ≡ 128
unfolding align8
plain_demand = refl

plain_passes : (w : World) × (eval_mm_valid mm plain_trace empty_world ≡ going w)
unfolding eval_mm_valid mm_init mm_malloc mm_free add_range
plain_passes = (_, refl)

eval_mm_valid_naive_example :
    (w' : World) × (eval_mm_valid mm plain_trace empty_world ≡ going w')
    × (w'.errors ≡ 0)
    × Pairwise Disjoint w'.ranges
    × (w'.machine.mem.brk ≡ 4096 + total_demand plain_trace)
eval_mm_valid_naive_example =
    eval_mm_valid_naive plain_trace empty_world empty_mem-IsMem (omega arith) (omega arith)
      (omega (arith, plain_demand))

eval_mm_valid-Sound_example : Sound 0 (eval_mm_valid mm mixed_trace empty_world)
eval_mm_valid-Sound_example = eval_mm_valid-Sound mm-Honest mixed_trace empty_world empty_mem-IsMem

-- a block of 16 bytes with the index 5
abbrev one_block : World
one_block = record empty_world { blocks = λ _. 4096; block_sizes = λ _. 16 }

one_block_fails :
    (w' : World) × (eval_realloc mm 5 (pos 40) one_block ≡ failed w') × (w'.errors ≡ 1)
unfolding eval_realloc mm_realloc mm_malloc mm_free add_range record_range check_data remove_range
one_block_fails = (_, refl, refl)

eval_realloc_high_example :
    eval_realloc mm 200 (pos 40) (record empty_world { block_sizes = λ _. 16 }) ≢ going empty_world
eval_realloc_high_example =
    eval_realloc_high mm 200 40 (record empty_world { block_sizes = λ _. 16 }) empty_world
      (omega arith) (omega arith) (omega arith) (omega arith)

total_mixed : total_rounded mixed_trace ≡ 56
unfolding align8
total_mixed = refl

eval_mm_util_naive_example :
    (high : ℤ) × (eval_mm_util mm mixed_trace empty_world ≡ some (high, total_rounded mixed_trace))
    × (high ≤ℤ pos (total_rounded mixed_trace))
eval_mm_util_naive_example =
    eval_mm_util_naive mixed_trace empty_world empty_mem-IsMem (λ i. omega arith) (omega arith)
      (omega (arith, total_mixed))

-- the heap after 64 bytes have been handed out, and a block in it
abbrev used_mem : Mem
used_mem = record empty_mem { brk = 4160 }

abbrev one_range : List Range
one_range = record { lo = 4104; hi = 4111 } ∷ []

add_range_iff_example :
    (add_range one_range 4112 16 used_mem ≡ accepted (extent 4112 16 ∷ one_range))
    ↔ Passes one_range 4112 16 used_mem
add_range_iff_example = add_range_iff one_range 4112 16 {m = used_mem} (omega arith) (omega arith)

add_range-Disjoint_example :
    All (λ p. Disjoint p (extent 4112 16) ⊎ Swallows (extent 4112 16) p) one_range
unfolding add_range mem_heap_lo mem_heap_hi
add_range-Disjoint_example =
    add_range-Disjoint one_range 4112 16 {m = used_mem} (omega arith) (omega arith) refl

-- A block of 32 bytes at 4096 covers the block at 4104, and is accepted.
add_range-Swallows_example :
    add_range one_range 4096 32 used_mem ≡ accepted (extent 4096 32 ∷ one_range)
add_range-Swallows_example =
    add_range-Swallows one_range 4096 32 {m = used_mem} (omega arith) (omega arith) (omega arith)
      (omega arith) (omega arith) (omega arith)

mm_malloc_full_example :
    mm_malloc 9 (record empty_machine { mem = record empty_mem { brk = 4096 + max_heap } }) ≡ (
      sbrk_error,
      record empty_machine {
        mem = record empty_mem { brk = 4096 + max_heap; errno = Errno.enomem };
      },
    )
mm_malloc_full_example =
    mm_malloc_full 9 (record empty_machine { mem = record empty_mem { brk = 4096 + max_heap } })
      (omega arith) (omega arith) (unfold align8 in omega arith)

eval_mm_speed-run_util_example :
    eval_mm_speed mm mixed_trace empty_world
    ≡ Option.map (timed empty_world) (run_util mm mixed_trace empty_world)
eval_mm_speed-run_util_example = eval_mm_speed-run_util mm mixed_trace empty_world

-- An allocator that never reuses a block and fails above an address.
abbrev bump : Allocator ℕ
bump = record {
  malloc = λ size next. if ltb 5000 (next + size) then (0, next) else (next, next + size);
  free = λ p next. next;
  realloc = λ p size next. if ltb 5000 (next + size) then (0, next) else (next, next + size);
}

abbrev bump_run : LibcRun ℕ
bump_run = record { state = 4096; blocks = λ _. 0; errors = 0 }

eval_libc_valid-speed_example :
    eval_libc_valid bump mixed_trace bump_run
    ≡ counted bump (eval_libc_speed bump mixed_trace bump_run)
eval_libc_valid-speed_example = eval_libc_valid-speed bump mixed_trace bump_run

bump_fails : eval_libc_valid bump (request alloc 0 2000 ∷ []) bump_run ≡ LibcOutcome.exited 1
unfolding eval_libc_valid
bump_fails = refl

mixed_usage : (v : Usage) × (run_util mm mixed_trace empty_world ≡ some v)
unfolding run_util mm_init mm_realloc mm_malloc mm_free
mixed_usage = (_, refl)

same_IsInt : {u t : Usage} → some u ≡ some t → IsInt u.total → IsInt t.total
same_IsInt {u} {t} e h = let same : u.total ≡ t.total = cc in rw same at h

-- The totals are 0, 16, 40 and 0.
mixed_totals :
    (n : ℕ) (t : Usage)
    → util_ops mm (take n mixed_trace) (no_usage empty_world) ≡ some t
    → IsInt t.total
unfolding util_ops mm_realloc mm_malloc mm_free ◌+ℤ◌ ◌-ℤ◌
mixed_totals zero t e = same_IsInt e (omega arith)
mixed_totals (suc zero) t e = same_IsInt e (omega arith)
mixed_totals (suc (suc zero)) t e = same_IsInt e (omega arith)
mixed_totals (suc (suc (suc zero))) t e = same_IsInt e (omega arith)
mixed_totals (suc (suc (suc (suc n)))) t e = same_IsInt e (omega arith)

run_util-Marks_example :
    Marks mm mixed_trace (no_usage empty_world) mixed_usage.0 × IsInt mixed_usage.0.high
unfolding restart mm_init
run_util-Marks_example =
    run_util-Marks mm mixed_trace empty_world empty_world refl mixed_usage.1 (omega arith)
      (λ i. omega arith) mixed_totals
