-- ===== src/Base/Words.antt =====
-- The conversions between C's `int`, `unsigned int`, `size_t`, `char` and `long` on an LP64
-- machine, where `int` has 32 bits, `size_t`, pointers and `long` have 64, and `char` is signed.
use decs.Base.{ℕ, ◌-◌, ◌%◌, ◌^◌, ◌<◌, ◌≡◌, refl, arith, ltb, if◌then◌else◌}
use decs.Base.Int.{ℤ, pos, negsuc}

-- `(size_t)i` for an `int i`
abbrev pub to_size_t : ℤ → ℕ
to_size_t (pos n) = n % 2 ^ 64
to_size_t (negsuc n) = (2 ^ 64 - 1 - n) % 2 ^ 64

-- `(int)s` for an unsigned value `s`: its low 32 bits as a two's complement number
abbrev pub to_int : ℕ → ℤ
to_int s = let w = s % 2 ^ 32 in if ltb w (2 ^ 31) then pos w else negsuc (2 ^ 32 - 1 - w)

-- the value of a `char` that holds the byte `b`
abbrev pub char_value : ℕ → ℤ
char_value b = if ltb b 128 then pos b else negsuc (255 - b)

pub to_int_small : (n : ℕ) → n < 2 ^ 31 → to_int n ≡ pos n
to_int_small n h = ground arith

to_int_wraps : to_int (2 ^ 32 - 8) ≡ negsuc 7
to_int_wraps = refl
