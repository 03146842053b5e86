-- ===== src/Percentage/Tests.antt =====
-- checkcpupercentage.c: two readings of small files.
use decs.Base.{ℕ, ◌∷◌, [], suc, zero}
use decs.Shell.Strings.{Str}
use decs.Text.{Bytes}
use decs.Percentage.Readings.{Files}

abbrev one_field : Str
one_field = b'1' ∷ []

-- `utime` is 20 or 30, `stime` 5, and the counts are an empty one and 100 or 300.
abbrev early : Files
early = record {
  fields =
      one_field ∷ one_field ∷ one_field ∷ one_field ∷ one_field ∷ one_field ∷ one_field ∷ one_field
      ∷ one_field ∷ one_field ∷ one_field ∷ one_field ∷ one_field ∷ [];
  utime = b'2' ∷ b'0' ∷ [];
  stime = b'5' ∷ [];
  name = b'c' ∷ b'p' ∷ b'u' ∷ [];
  first_count = [];
  counts = (b'1' ∷ b'0' ∷ b'0' ∷ []) ∷ [];
  later = b'0' ∷ [];
}

abbrev late : Files
late = record early { utime = b'3' ∷ b'0' ∷ []; counts = (b'3' ∷ b'0' ∷ b'0' ∷ []) ∷ [] }

abbrev zeros : ℕ → Bytes
zeros zero = []
zeros (suc n) = 0 ∷ zeros n
