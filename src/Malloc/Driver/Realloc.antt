-- ===== src/Malloc/Driver/Realloc.antt =====
-- mdriver.c, the case REALLOC of `eval_mm_valid`.
use decs.Malloc.Ranges.{remove_range}
use decs.Malloc.Ranges.Checks.{extent}
use decs.Malloc.Mm.{align8}
use decs.Malloc.Memlib.{Mem}
use decs.Base.Words.{to_size_t}
use decs.Malloc.Package.{Package}
use decs.Base.Int.{pos}
use decs.Malloc.Driver.{
  preserved, kept_size, eval_realloc, check_range, record_range, check_data, malloc_error, World,
  going,
}
use decs.Base.{suc, zero, ℕ, ◌≤◌, ◌<◌, ◌≡◌, ◌^◌, false, arith, ◌%◌, ◌≢◌, ◌+◌, ◌∷◌}

-- No `char` has a value from 128 on.
preserved_high : (bytes : ℕ → ℕ) (p v n : ℕ) → 128 ≤ v → 0 < n → preserved bytes p v n ≡ false
unfolding preserved
preserved_high bytes p v zero high positive = absurd (omega arith)
preserved_high bytes p v (suc n) high positive = ground arith

kept_size_pos : (a b : ℕ) → 0 < a → 0 < b → b < 2 ^ 31 → 0 < kept_size (pos a) b
unfolding kept_size
kept_size_pos a b pa pb small = ground arith

-- When the index of a block ends in a byte from 128 on, `eval_mm_valid` never accepts a `realloc` of
-- the block from a positive to a positive size, whatever the package does with the data: the bytes
-- are read back as signed characters.
pub eval_realloc_high :
    (pk : Package) (index a : ℕ) (w w' : World)
    → 128 ≤ index % 256
    → 0 < a
    → 0 < w.block_sizes index
    → w.block_sizes index < 2 ^ 31
    → eval_realloc pk index (pos a) w ≢ going w'
unfolding eval_realloc check_range record_range check_data malloc_error
eval_realloc_high pk index a w w' high pa pb small e = ground (
  arith,
  preserved_high (pk.realloc (w.blocks index) (to_size_t (pos a)) w.machine).1.bytes
      (pk.realloc (w.blocks index) (to_size_t (pos a)) w.machine).0 (index % 256)
      (kept_size (pos a) (w.block_sizes index)) high
      (kept_size_pos a (w.block_sizes index) pa pb small),
)

-- The state in which the moved bytes are checked: the naive package has put the block at the break.
abbrev pub moved_world : ℕ → ℕ → World → World
moved_world index n w =
    let m : Mem = w.machine.mem in
    record w {
      machine = record (w.machine) { mem = record m { brk = m.brk + align8 n } };
      ranges = extent m.brk n ∷ remove_range w.ranges (w.blocks index);
    }
