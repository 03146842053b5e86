-- ===== src/Percentage.antt =====
-- assignment 1/checkcpupercentage.c: the share of the processor that a process takes, from two readings
-- of /proc/<pid>/stat and /proc/stat. A percentage is left as its numerator and denominator.
pub mod Fields
pub mod Readings
mod Tests
use decs.Base.Int.{ℤ, pos, ◌+ℤ◌, ◌-ℤ◌, ◌*ℤ◌}
use decs.Base.{
  ℕ, zero, suc, Bool, List, ◌∷◌, [], Option, some, none, if◌then◌else◌, length, ◌==◌, false, ◌||◌,
}
use decs.Shell.Strings.{Str, strsep}
use decs.Text.{Bytes, scan_d}

-- A read of a file into a buffer of 200 bytes; a file that cannot be read leaves it.
unfoldable pub overlay : Bytes → Bytes → Bytes
overlay new [] = []
overlay [] (o ∷ old) = o ∷ old
overlay (c ∷ new) (o ∷ old) = c ∷ overlay new old

unfoldable pub read_into : Option Bytes → Bytes → Bytes
unfolding overlay
read_into none buffer = buffer
read_into (some text) buffer = overlay text buffer

-- What stands in a buffer up to a NUL or its end, and whether there is a NUL: a search that does not
-- stop before the end goes beyond the buffer.
unfoldable pub c_string : Bytes → Str
c_string [] = []
c_string (c ∷ buffer) = let more = c_string buffer in if c == 0 then [] else c ∷ more

unfoldable pub has_nul : Bytes → Bool
has_nul [] = false
has_nul (c ∷ buffer) = c == 0 || has_nul buffer

-- The NULs that `n` calls of `strsep` write to the string in the buffer
unfoldable pub cut : ℕ → ℕ → Bytes → Bytes
cut n d [] = []
cut zero d (c ∷ buffer) = c ∷ buffer
cut (suc n) d (c ∷ buffer) =
    let here = 0 ∷ cut n d buffer in
    let later = c ∷ cut (suc n) d buffer in
    if c == 0 then c ∷ buffer else if c == d then here else later

-- `atoi`, which reads through a NULL
unfoldable pub atoi : Option Str → Option ℤ
unfolding scan_d
atoi none = none
atoi (some s) = some (elim (scan_d s).0 [ none ↦ pos 0 | some z ↦ z ])

-- what `n` calls of `strsep` leave
unfoldable pub drop_fields : ℕ → Option Str → Option Str
unfolding strsep
drop_fields zero s = s
drop_fields (suc n) s = drop_fields n (strsep b' ' s).1

unfoldable pub both : Option ℤ → Option ℤ → Option (ℤ × ℤ)
both none b = none
both (some a) none = none
both (some a) (some b) = some (a, b)

-- A search that has come to the end is undefined without a NUL.
unfoldable pub unless_beyond : {A : Type 0} → Bool → Option Str → Option A → Option A
unless_beyond nul (some s) a = a
unless_beyond nul none a = if nul then a else none

-- The numbers of the next two fields
unfoldable pub two_numbers : Bool → Option Str → Option (ℤ × ℤ)
unfolding strsep atoi both unless_beyond
two_numbers nul s =
    let a = strsep b' ' s in
    let b = strsep b' ' a.1 in unless_beyond nul b.1 (both (atoi a.0) (atoi b.0))

-- `read_utime_stime`, and the buffer that it leaves
unfoldable pub read_utime_stime : Option Bytes → Bytes → Option (ℤ × ℤ) × Bytes
unfolding read_into c_string has_nul drop_fields two_numbers cut
read_utime_stime file buffer =
    let b = read_into file buffer in
    (two_numbers (has_nul b) (drop_fields 13 (some (c_string b))), cut 15 b' ' b)

unfoldable pub add_number : ℤ → (ℤ → Option ℤ) → Option ℤ → Option ℤ
unfolding ◌+ℤ◌
add_number totaltime next none = none
add_number totaltime next (some z) = next (totaltime +ℤ z)

-- The loop over the fields, with fuel: each call of `strsep` but the last shortens the string.
unfoldable pub add_fields : ℕ → ℤ → Option Str → Option ℤ
unfolding strsep atoi add_number
add_fields zero totaltime s = none
add_fields (suc fuel) totaltime none = some totaltime
add_fields (suc fuel) totaltime (some s) =
    let a = strsep b' ' (some s) in add_number totaltime (λ z. add_fields fuel z a.1) (atoi a.0)

-- the first line, without its first field
unfoldable pub sum_line : ℤ → Bool → Str → Option ℤ
unfolding strsep add_fields unless_beyond
sum_line totaltime nul s =
    let line = strsep 10 (some s) in
    unless_beyond nul line.1 (add_fields (suc (suc (length s))) totaltime (strsep b' ' line.0).1)

-- the NULs in the first line, one for each space, and the one at its end
unfoldable pub cut_line : Bytes → Bytes
cut_line [] = []
cut_line (c ∷ buffer) =
    let more = cut_line buffer in
    if c == 0
    then c ∷ buffer
    else if c == 10
    then 0 ∷ buffer
    else if c == b' '
    then 0 ∷ more
    else c ∷ more

-- `read_totaltime`, which adds to what `totaltime` holds
unfoldable pub read_totaltime : Option Bytes → Bytes → ℤ → Option ℤ × Bytes
unfolding read_into c_string has_nul sum_line cut_line
read_totaltime file buffer totaltime =
    let b = read_into file buffer in (sum_line totaltime (has_nul b) (c_string b), cut_line b)

pub record Times : Type 0 where
  pub utime : ℤ
  pub stime : ℤ
  pub totaltime : ℤ

unfoldable pub times : Option (ℤ × ℤ) → Option ℤ → Option Times
times none t = none
times (some a) none = none
times (some a) (some t) = some (record { utime = a.0; stime = a.1; totaltime = t })

-- The two percentages, from the two readings
unfoldable pub percentages : ℕ → Option Times → Option Times → Option ((ℤ × ℤ) × (ℤ × ℤ))
unfolding ◌-ℤ◌ ◌*ℤ◌
percentages cores none b = none
percentages cores (some a) none = none
percentages cores (some a) (some b) =
    let ttime_diff = b.totaltime -ℤ a.totaltime in
    some (
      ((b.utime -ℤ a.utime) *ℤ pos cores *ℤ pos 100, ttime_diff),
      ((b.stime -ℤ a.stime) *ℤ pos cores *ℤ pos 100, ttime_diff),
    )

-- `main`, on what the files hold at the two readings; `totaltime` is what the array holds at its start.
unfoldable pub main :
    ℕ
    → Bytes
    → Option Bytes × Option Bytes
    → Option Bytes × Option Bytes
    → ℤ × ℤ
    → Option ((ℤ × ℤ) × (ℤ × ℤ))
unfolding read_utime_stime read_totaltime times percentages
main cores empty_buffer first second totaltime =
    let a = read_utime_stime first.0 empty_buffer in
    let b = read_totaltime first.1 empty_buffer totaltime.0 in
    let c = read_utime_stime second.0 a.1 in
    let d = read_totaltime second.1 b.1 totaltime.1 in
    percentages cores (times a.0 b.0) (times c.0 d.0)
