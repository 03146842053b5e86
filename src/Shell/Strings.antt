-- ===== src/Shell/Strings.antt =====
-- The functions of string.h that assignment 1/myshell.c calls. A string is the list of its bytes
-- without the NUL, a NULL pointer is `none`; each delimiter string of the source has one character.
use decs.Base.{
  ℕ, refl, List, Bool, ◌∷◌, Option, if◌then◌else◌, none, [], some, true, ◌==◌, false, ◌&&◌,
}
pub mod Words

abbrev pub Str : Type 0
Str = List ℕ

-- `strcmp(s, t) == 0`
unfoldable pub same : Str → Str → Bool
same [] [] = true
same [] (d ∷ t) = false
same (c ∷ s) [] = false
same (c ∷ s) (d ∷ t) = c == d && same s t

unfoldable pub skip : ℕ → Str → Str
skip d [] = []
skip d (c ∷ s) = if c == d then skip d s else c ∷ s

unfoldable pub before : ℕ → Str → Str
before d [] = []
before d (c ∷ s) = if c == d then [] else c ∷ before d s

unfoldable pub behind : ℕ → Str → Option Str
behind d [] = none
behind d (c ∷ s) = if c == d then some s else behind d s

unfoldable pub or_empty : Option Str → Str
or_empty none = []
or_empty (some s) = s

-- `strsep(&s, d)`: the field and the new value of `s`
unfoldable pub strsep : ℕ → Option Str → Option Str × Option Str
unfolding before behind
strsep d none = (none, none)
strsep d (some s) = (some (before d s), behind d s)

unfoldable pub strtok_from : ℕ → Str → Option Str × Str
unfolding before behind or_empty
strtok_from d [] = (none, [])
strtok_from d (c ∷ s) = (some (before d (c ∷ s)), or_empty (behind d (c ∷ s)))

-- `strtok(s, d)`: the token and what the next call with NULL goes on with; the last argument is what
-- the previous call left.
unfoldable pub strtok : ℕ → Option Str → Str → Option Str × Str
unfolding strtok_from skip
strtok d none saved = strtok_from d (skip d saved)
strtok d (some s) saved = strtok_from d (skip d s)

-- The string that the argument of `strtok(s, d)` points to after the call: a NUL stands behind the
-- first token, where a delimiter was.
unfoldable pub strtok_leaves : ℕ → Str → Str
unfolding before
strtok_leaves d [] = []
strtok_leaves d (c ∷ s) = if c == d then c ∷ strtok_leaves d s else before d (c ∷ s)

-- `strrchr(s, d)`: the string from the last `d` on
unfoldable pub strrchr : ℕ → Str → Option Str
strrchr d [] = none
strrchr d (c ∷ s) = later d (c ∷ s) (strrchr d s)
  where
    later : ℕ → Str → Option Str → Option Str
    later d s (some t) = some t
    later d [] none = none
    later d (c ∷ s) none = if c == d then some (c ∷ s) else none
