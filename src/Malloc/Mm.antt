-- ===== src/Malloc/Mm.antt =====
-- assignment-3/PA_3_handout/mm.c (mm1.c and mm2.c have the same text): the naive package, which
-- moves the break and never reuses a block.
pub mod Blocks
use decs.Base.{ℕ, ◌+◌, ◌*◌, ◌/◌, ◌%◌, ◌^◌, ◌==◌, if◌then◌else◌}
use decs.Base.Int.{ℤ, pos}
use decs.Base.Words.{to_int}
use decs.Malloc.Memlib.{mem_sbrk}
use decs.Malloc.Package.{Machine, Package}

-- `((size+7)/8)*8` in `size_t`
unfoldable pub align8 : ℕ → ℕ
align8 size = (size + 7) % 2 ^ 64 / 8 * 8

unfoldable pub mm_init : Machine → ℤ × Machine
mm_init h = (pos 0, h)

-- A call of `mem_sbrk` converts its argument to `int`.
unfoldable pub sbrk_size_t : ℕ → Machine → ℕ × Machine
unfolding mem_sbrk
sbrk_size_t size h = let (p, m) = mem_sbrk (to_int size) h.mem in (p, record h { mem = m })

unfoldable pub mm_malloc : ℕ → Machine → ℕ × Machine
unfolding sbrk_size_t align8
mm_malloc size h = if size == 0 then (0, h) else sbrk_size_t (align8 size) h

unfoldable pub mm_free : ℕ → Machine → Machine
mm_free ptr h = h

unfoldable pub mm_realloc : ℕ → ℕ → Machine → ℕ × Machine
mm_realloc ptr size h =
    let size' = align8 size in
    if ptr == 0
    then mm_malloc size' h
    else if size' == 0
    then (0, mm_free ptr h)
    else sbrk_size_t size' (mm_free ptr h)

abbrev pub mm : Package
mm = record { init = mm_init; malloc = mm_malloc; free = mm_free; realloc = mm_realloc }
