-- ===== src/Malloc/Ranges.antt =====
-- assignment-3/PA_3_handout/mdriver.c: the range list, which records the extent of every payload
-- that is in use, and the checks of a new block against it.
pub mod Checks
pub mod Removal
use decs.Base.{
  ℕ, ◌+◌, ◌-◌, ◌%◌, ◌^◌, Bool, false, not, List, [], ◌∷◌, ◌&&◌, ◌||◌, ltb, leb, ◌==◌, if◌then◌else◌,
}
use decs.Malloc.Memlib.{Mem, mem_heap_lo, mem_heap_hi}

-- `range_t`: the first and the last address of a payload; the links are those of the list.
pub record Range : Type 0 where
  pub lo : ℕ
  pub hi : ℕ

-- `IS_ALIGNED`, which casts the pointer to `unsigned int`
unfoldable pub is_aligned : ℕ → Bool
is_aligned p = p % 2 ^ 32 % 8 == 0

-- the second test of `add_range`: the payload does not lie within the heap
unfoldable pub lies_outside : ℕ → ℕ → Mem → Bool
unfolding mem_heap_lo mem_heap_hi
lies_outside lo hi m =
    ltb lo (mem_heap_lo m)
    || ltb (mem_heap_hi m) lo
    || ltb hi (mem_heap_lo m)
    || ltb (mem_heap_hi m) hi

-- the test of the loop of `add_range`: an end of the payload lies in the range `p`
unfoldable pub meets : ℕ → ℕ → Range → Bool
meets lo hi p = leb p.lo lo && leb lo p.hi || leb p.lo hi && leb hi p.hi

unfoldable pub meets_any : ℕ → ℕ → List Range → Bool
unfolding meets
meets_any lo hi [] = false
meets_any lo hi (p ∷ ps) = meets lo hi p || meets_any lo hi ps

-- The verdict of `add_range` on a payload of `n` bytes; `refused` stands for each return of 0.
pub data Added : Type 0 where
  accepted : List Range → Added
  refused : Added

-- `add_range`, behind its assertion that the size is positive
unfoldable pub add_range : List Range → ℕ → ℕ → Mem → Added
unfolding is_aligned lies_outside meets_any
add_range ranges lo n m =
    let hi = lo + n - 1 in
    if not (is_aligned lo)
    then refused
    else if lies_outside lo hi m
    then refused
    else if meets_any lo hi ranges
    then refused
    else accepted (record { lo = lo; hi = hi } ∷ ranges)

-- `remove_range`: the first record with this low address is unlinked.
unfoldable pub remove_range : List Range → ℕ → List Range
remove_range [] lo = []
remove_range (p ∷ ps) lo = if p.lo == lo then ps else p ∷ remove_range ps lo

unfoldable pub clear_ranges : List Range → List Range
clear_ranges ranges = []
