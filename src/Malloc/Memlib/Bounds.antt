-- ===== src/Malloc/Memlib/Bounds.antt =====
-- memlib.c: the break stays within the region of the heap, and what `mem_sbrk` hands out is new.
use decs.Base.{ℕ, ◌+◌, ◌-◌, ◌≤◌, ◌<◌, ◌≡◌, inl, inr, some, ltb, arith, Bool-cases}
use decs.Base.Int.{ℤ, pos, negsuc}
use decs.Malloc.Memlib.{
  Mem, enomem, max_heap, sbrk_error, mem_init, mem_reset_brk, mem_sbrk, mem_heap_lo, mem_heap_hi,
  mem_heapsize,
}

-- The region of the heap is `max_heap` addresses of a 64-bit space, and the break lies in it.
pub record IsMem (m : Mem) : Type 0 where
  pub nonnull : 0 < m.start_brk
  pub above : m.start_brk ≤ m.brk
  pub below : m.brk ≤ m.max_addr
  pub region : m.max_addr ≡ m.start_brk + max_heap
  pub addressable : m.max_addr < sbrk_error

-- The same region; the break has not moved down.
pub record Grows (m m' : Mem) : Type 0 where
  pub same_start : m'.start_brk ≡ m.start_brk
  pub same_max : m'.max_addr ≡ m.max_addr
  pub up : m.brk ≤ m'.brk

pub Grows-refl : (m : Mem) → Grows m m
Grows-refl m = omega arith

pub mem_init-IsMem :
    (region : ℕ) {m : Mem}
    → region + max_heap < sbrk_error
    → mem_init region ≡ some m
    → IsMem m × (mem_heapsize m ≡ 0)
unfolding mem_init mem_heapsize
mem_init-IsMem region h e = ground arith

pub mem_reset_brk-IsMem : {m : Mem} → IsMem m → IsMem (mem_reset_brk m)
unfolding mem_reset_brk
mem_reset_brk-IsMem v = omega arith

-- Every call keeps the break in the region and never moves it down.
pub mem_sbrk-IsMem : (i : ℤ) {m : Mem} → IsMem m → IsMem (mem_sbrk i m).1 × Grows m (mem_sbrk i m).1
unfolding mem_sbrk
mem_sbrk-IsMem (pos n) v = ground arith
mem_sbrk-IsMem (negsuc n) v = ground arith

-- The two outcomes of a call of `mem_sbrk` on a well-formed heap, whatever the increment.
pub data Sbrk (m : Mem) : ℤ → ℕ × Mem → Type 0 where
  extends : (n : ℕ) → m.brk + n ≤ m.max_addr → Sbrk m (pos n) (m.brk, record m { brk = m.brk + n })
  runs_out :
      (n : ℕ) → m.max_addr < m.brk + n → Sbrk m (pos n) (sbrk_error, record m { errno = enomem })
  negative : (n : ℕ) → Sbrk m (negsuc n) (sbrk_error, record m { errno = enomem })

pub mem_sbrk-Sbrk : (i : ℤ) (m : Mem) → Sbrk m i (mem_sbrk i m)
unfolding mem_sbrk
mem_sbrk-Sbrk (negsuc n) m = negative n
mem_sbrk-Sbrk (pos n) m = elim (Bool-cases (ltb m.max_addr (m.brk + n))) [
  | inl full ↦ rw full (runs_out n (ground arith))
  | inr fits ↦ rw fits (extends n (ground arith))
]

pub mem_sbrk-pos :
    (n : ℕ) (m : Mem)
    → m.brk + n ≤ m.max_addr
    → mem_sbrk (pos n) m ≡ (m.brk, record m { brk = m.brk + n })
unfolding mem_sbrk
mem_sbrk-pos n m h = ground arith

pub mem_sbrk_full :
    (n : ℕ) (m : Mem)
    → m.max_addr < m.brk + n
    → mem_sbrk (pos n) m ≡ (sbrk_error, record m { errno = enomem })
unfolding mem_sbrk
mem_sbrk_full n m h = ground arith

-- The first and the last address of a heap that is not empty, and its size, as the accessors see it.
pub heap_extent :
    {m : Mem}
    → IsMem m
    → m.start_brk < m.brk
    → (mem_heap_lo m ≡ m.start_brk)
      × (mem_heap_hi m ≡ m.brk - 1)
      × (mem_heap_hi m + 1 ≡ mem_heap_lo m + mem_heapsize m)
unfolding mem_heap_lo mem_heap_hi mem_heapsize
heap_extent v h = omega arith
