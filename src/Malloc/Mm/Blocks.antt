-- ===== src/Malloc/Mm/Blocks.antt =====
-- mm.c: what the blocks of the naive package are, and what it returns when there is no room.
use decs.Base.{ℕ, ◌+◌, ◌-◌, ◌*◌, ◌/◌, ◌%◌, ◌^◌, ◌≤◌, ◌<◌, ◌≡◌, arith}
use decs.Base.Words.{to_int, to_int_small}
use decs.Malloc.Memlib.{enomem, sbrk_error, mem_sbrk}
use decs.Malloc.Memlib.Bounds.{IsMem, Grows, mem_sbrk-pos, mem_sbrk_full, mem_sbrk-IsMem}
use decs.Malloc.Package.{Machine}
use decs.Malloc.Mm.{align8, sbrk_size_t, mm_malloc, mm_realloc, mm_free}

-- Rounding up: the least multiple of 8 that is not below the size.
pub align8_bounds :
    (n : ℕ) → n < 2 ^ 64 - 7 → (align8 n % 8 ≡ 0) × (n ≤ align8 n) × (align8 n < n + 8)
unfolding align8
align8_bounds n h = omega arith

pub align8_idem : (n : ℕ) → n < 2 ^ 64 - 7 → align8 (align8 n) ≡ align8 n
unfolding align8
align8_idem n h = omega arith

pub sbrk_size_t_fits :
    (n : ℕ) (h : Machine)
    → n < 2 ^ 31
    → h.mem.brk + n ≤ h.mem.max_addr
    → sbrk_size_t n h ≡ (h.mem.brk, record h { mem = record (h.mem) { brk = h.mem.brk + n } })
unfolding sbrk_size_t
sbrk_size_t_fits n h small room = rw (to_int_small n small, mem_sbrk-pos n h.mem room)

pub sbrk_size_t_full :
    (n : ℕ) (h : Machine)
    → n < 2 ^ 31
    → h.mem.max_addr < h.mem.brk + n
    → sbrk_size_t n h ≡ (sbrk_error, record h { mem = record (h.mem) { errno = enomem } })
unfolding sbrk_size_t
sbrk_size_t_full n h small full = rw (to_int_small n small, mem_sbrk_full n h.mem full)

-- `mm_malloc` of a size that fits the heap returns the old break and moves the break up by the size
-- rounded up to 8; no byte changes.
pub mm_malloc_fits :
    (n : ℕ) (h : Machine)
    → 0 < n
    → n < 2 ^ 31 - 8
    → h.mem.brk + align8 n ≤ h.mem.max_addr
    → mm_malloc n h ≡ (h.mem.brk, record h { mem = record (h.mem) { brk = h.mem.brk + align8 n } })
unfolding mm_malloc
mm_malloc_fits n h positive small room = ground (
  arith,
  align8_bounds n (omega arith),
  sbrk_size_t_fits (align8 n) h (omega (arith, align8_bounds n (omega arith))) room,
)

-- For a size that is positive and less than 2^31 - 8: where the heap has no room for the size rounded
-- up to 8, the result is `(void *)-1`, which is not `NULL`, and the heap stays as it was, with `errno`
-- set to ENOMEM.
pub mm_malloc_full :
    (n : ℕ) (h : Machine)
    → 0 < n
    → n < 2 ^ 31 - 8
    → h.mem.max_addr < h.mem.brk + align8 n
    → mm_malloc n h ≡ (sbrk_error, record h { mem = record (h.mem) { errno = enomem } })
unfolding mm_malloc
mm_malloc_full n h positive small full = ground (
  arith,
  align8_bounds n (omega arith),
  sbrk_size_t_full (align8 n) h (omega (arith, align8_bounds n (omega arith))) full,
)

-- A request for a positive multiple of 4 GiB gets the address of the break and no memory: the size
-- is cut to 0 by the conversion to `int`.
pub mm_malloc-multiple :
    (k : ℕ) (h : Machine)
    → 0 < k
    → k < 2 ^ 32
    → IsMem h.mem
    → ((mm_malloc (k * 2 ^ 32) h).0 ≡ h.mem.brk)
      × ((mm_malloc (k * 2 ^ 32) h).1.mem.brk ≡ h.mem.brk)
unfolding mm_malloc sbrk_size_t mem_sbrk align8
mm_malloc-multiple k h positive small v = ground (arith, none)
  where
    none : (k * 2 ^ 32 + 7) % 2 ^ 64 / 8 * 8 % 2 ^ 32 ≡ 0
    none = omega arith

-- Whatever the arguments, `mm_realloc` moves no byte, and keeps the heap well formed.
pub mm_realloc-IsMem :
    (p n : ℕ) (h : Machine)
    → IsMem h.mem
    → IsMem (mm_realloc p n h).1.mem
      × Grows h.mem (mm_realloc p n h).1.mem
      × ((mm_realloc p n h).1.bytes ≡ h.bytes)
unfolding mm_realloc mm_malloc mm_free sbrk_size_t
mm_realloc-IsMem p n h v =
    ground
      (arith, mem_sbrk-IsMem (to_int (align8 n)) v, mem_sbrk-IsMem (to_int (align8 (align8 n))) v)
