-- ===== src/Text.antt =====
-- The conversions of `fscanf` that assignment-3/PA_3_handout/mdriver.c and
-- assignment-2/PA2_2020/3_race/hare_tortoise_runner.c use, on a file as the list of its bytes. Each
-- returns what it stores, `none` where the text does not fit, and the rest of the file.
pub mod Numerals
use decs.Base.Int.{◌-ℤ◌, ℤ, pos, negsuc}
use decs.Base.{
  ℕ, refl, List, Bool, ◌∷◌, Option, ◌==◌, leb, if◌then◌else◌, ◌*◌, none, ◌||◌, ◌&&◌, ◌+◌, some, [],
  ◌-◌, ◌%◌, ◌^◌,
}

abbrev pub Bytes : Type 0
Bytes = List ℕ

-- `isspace`
unfoldable pub is_space : ℕ → Bool
is_space c = c == 32 || leb 9 c && leb c 13

unfoldable pub is_digit : ℕ → Bool
is_digit c = leb b'0' c && leb c b'9'

unfoldable pub skip_spaces : Bytes → Bytes
unfolding is_space
skip_spaces [] = []
skip_spaces (c ∷ s) = if is_space c then skip_spaces s else c ∷ s

unfoldable pub read_digits : ℕ → Bytes → ℕ × Bytes
unfolding is_digit
read_digits n [] = (n, [])
read_digits n (c ∷ s) =
    let more = read_digits (n * 10 + (c - b'0')) s in if is_digit c then more else (n, c ∷ s)

unfoldable pub read_number : Bytes → Option ℕ × Bytes
unfolding is_digit read_digits
read_number [] = (none, [])
read_number (c ∷ s) =
    let r = read_digits 0 (c ∷ s) in if is_digit c then (some r.0, r.1) else (none, c ∷ s)

unfoldable pub plus : Option ℕ × Bytes → Option ℤ × Bytes
plus (none, s) = (none, s)
plus (some n, s) = (some (pos n), s)

unfoldable pub minus : Option ℕ × Bytes → Option ℤ × Bytes
unfolding ◌-ℤ◌
minus (none, s) = (none, s)
minus (some n, s) = (some (pos 0 -ℤ pos n), s)

unfoldable pub read_signed : Bytes → Option ℤ × Bytes
unfolding read_number plus minus
read_signed [] = (none, [])
read_signed (c ∷ s) =
    if c == b'-'
    then minus (read_number s)
    else if c == b'+'
    then plus (read_number s)
    else plus (read_number (c ∷ s))

-- `%d`: the number, which the standard wants to fit an `int`
unfoldable pub scan_d : Bytes → Option ℤ × Bytes
unfolding skip_spaces read_signed
scan_d s = read_signed (skip_spaces s)

unfoldable pub wrap_unsigned : Option ℤ × Bytes → Option ℕ × Bytes
wrap_unsigned (none, s) = (none, s)
wrap_unsigned (some (pos n), s) = (some (n % 2 ^ 32), s)
wrap_unsigned (some (negsuc n), s) = (some ((2 ^ 32 - 1 - n % 2 ^ 32) % 2 ^ 32), s)

-- `%u`: the number as an `unsigned int`
unfoldable pub scan_u : Bytes → Option ℕ × Bytes
unfolding wrap_unsigned scan_d
scan_u s = wrap_unsigned (scan_d s)

-- `%c`
unfoldable pub scan_c : Bytes → Option ℕ × Bytes
scan_c [] = (none, [])
scan_c (c ∷ s) = (some c, s)

unfoldable pub word : Bytes → Bytes
unfolding is_space
word [] = []
word (c ∷ s) = if is_space c then [] else c ∷ word s

unfoldable pub behind_word : Bytes → Bytes
unfolding is_space
behind_word [] = []
behind_word (c ∷ s) = if is_space c then c ∷ s else behind_word s

-- `%s` behind the spaces: `none` is the end of the file
unfoldable pub take_word : Bytes → Option Bytes × Bytes
unfolding word behind_word
take_word [] = (none, [])
take_word (c ∷ s) = (some (word (c ∷ s)), behind_word (c ∷ s))

unfoldable pub scan_s : Bytes → Option Bytes × Bytes
unfolding skip_spaces take_word
scan_s s = take_word (skip_spaces s)
