-- ===== src/Malloc/Memlib.antt =====
-- assignment-3/PA_3_handout/memlib.c: the heap that `mem_sbrk` extends. An address is a number and
-- `NULL` is 0; the region that libc's `malloc` hands to `mem_init` is an argument.
pub mod Bounds
use decs.Base.{ℕ, ◌+◌, ◌-◌, ◌*◌, ◌%◌, ◌^◌, Option, none, some, ltb, ◌==◌, if◌then◌else◌}
use decs.Base.Int.{ℤ, pos, negsuc, ◌+ℤ◌}

-- config.h: `MAX_HEAP`, 20 MB
abbrev pub max_heap : ℕ
max_heap = 20 * 2 ^ 20

-- `(void *)-1`
abbrev pub sbrk_error : ℕ
sbrk_error = 2 ^ 64 - 1

pub data Errno : Type 0 where
  unset enomem : Errno

-- the static variables of memlib.c, and `errno`
pub record Mem : Type 0 where
  pub start_brk : ℕ
  pub brk : ℕ
  pub max_addr : ℕ
  pub errno : Errno

-- `region` is what `malloc(MAX_HEAP)` returns; on `NULL` the program exits.
unfoldable pub mem_init : ℕ → Option Mem
mem_init region =
    if region == 0
    then none
    else some
        (record { start_brk = region; brk = region; max_addr = region + max_heap; errno = unset })

unfoldable pub mem_reset_brk : Mem → Mem
mem_reset_brk m = record m { brk = m.start_brk }

-- The result is the old break, or `sbrk_error` with `errno` set.
unfoldable pub mem_sbrk : ℤ → Mem → ℕ × Mem
unfolding ◌+ℤ◌
mem_sbrk (negsuc n) m = (sbrk_error, record m { errno = enomem })
mem_sbrk (pos n) m =
    if ltb m.max_addr (m.brk + n)
    then (sbrk_error, record m { errno = enomem })
    else (m.brk, record m { brk = m.brk + n })

unfoldable pub mem_heap_lo : Mem → ℕ
mem_heap_lo m = m.start_brk

-- `mem_brk - 1`, as a 64-bit address
unfoldable pub mem_heap_hi : Mem → ℕ
mem_heap_hi m = (m.brk + 2 ^ 64 - 1) % 2 ^ 64

-- `mem_brk - mem_start_brk`, as a `size_t`
unfoldable pub mem_heapsize : Mem → ℕ
mem_heapsize m = (m.brk + 2 ^ 64 - m.start_brk) % 2 ^ 64
