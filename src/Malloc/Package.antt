-- ===== src/Malloc/Package.antt =====
-- assignment-3/PA_3_handout/mm.h: what the driver is linked with. mm.c, mm1.c and mm2.c implement
-- it; a package acts on the simulated memory system and on the bytes that the heap holds.
use decs.Base.{ℕ}
use decs.Base.Int.{ℤ}
use decs.Malloc.Memlib.{Mem}

-- The memory system and the byte at each address.
pub record Machine : Type 0 where
  pub mem : Mem
  pub bytes : ℕ → ℕ

-- `mm_init`, `mm_malloc`, `mm_free` and `mm_realloc`; sizes are of type `size_t`.
pub record Package : Type 0 where
  pub init : Machine → ℤ × Machine
  pub malloc : ℕ → Machine → ℕ × Machine
  pub free : ℕ → Machine → Machine
  pub realloc : ℕ → ℕ → Machine → ℕ × Machine
