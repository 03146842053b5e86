-- ===== src/Percentage/Fields.antt =====
-- checkcpupercentage.c: which fields of the two files are read.
use mathlib.Core.List.{append_assoc}
use mathlib.Core.Path.{subst}
use decs.Base.{
  ℕ, refl, ◌≡◌, List, ◌∷◌, [], ◌++◌, All, length, some, none, arith, ◌≤◌, ◌∙◌, Bool, ap, ◌+◌, ◌<◌,
  suc, zero, length-append,
}
use decs.Base.Int.{ℤ, pos, ◌+ℤ◌}
use decs.Shell.Strings.{Str, strsep, before, behind}
use decs.Shell.Tokens.Redirection.{Lacks, before-append, behind-append}
use decs.Text.{Bytes, scan_d}
use decs.Percentage.{
  overlay, read_into, c_string, atoi, drop_fields, two_numbers, read_utime_stime, unless_beyond,
  has_nul, add_fields, read_totaltime, add_number, sum_line,
}

-- The number at the start of a field, 0 without one
unfoldable pub number : Str → ℤ
number s = elim (scan_d s).0 [ none ↦ pos 0 | some z ↦ z ]

atoi-number : (s : Str) → atoi (some s) ≡ some (number s)
unfolding atoi number
atoi-number s = refl

-- fields, each with a space behind it, in front of `s`
unfoldable pub spaced : List Str → Str → Str
spaced [] s = s
spaced (f ∷ fs) s = f ++ b' ' ∷ spaced fs s

before-all : (d : ℕ) (f : Str) → Lacks d f → before d f ≡ f
unfolding before
before-all d [] h = refl
before-all d (c ∷ f) h = rw (h.0, before-all d f h.1) refl

behind-all : (d : ℕ) (f : Str) → Lacks d f → behind d f ≡ none
unfolding behind
behind-all d [] h = refl
behind-all d (c ∷ f) h = rw (h.0) (behind-all d f h.1)

drop_fields-spaced :
    (fs : List Str) (s : Str)
    → All (Lacks b' ') fs
    → drop_fields (length fs) (some (spaced fs s)) ≡ some s
unfolding drop_fields spaced strsep
drop_fields-spaced [] s h = refl
drop_fields-spaced (f ∷ fs) s h =
    rw (drop_fields, behind-append b' ' f (spaced fs s) h.0) (drop_fields-spaced fs s h.1)

-- What has been read stands at the start of the string.
c_string-overlay :
    (text beyond buffer : Bytes)
    → Lacks 0 text
    → length text ≤ length buffer
    → (tail : Bytes) × (c_string (overlay (text ++ beyond) buffer) ≡ text ++ tail)
unfolding c_string overlay
c_string-overlay [] beyond buffer h e = (c_string (overlay beyond buffer), refl)
c_string-overlay (c ∷ text) beyond [] h e = absurd (omega (arith, e))
c_string-overlay (c ∷ text) beyond (o ∷ buffer) h e =
    let (tail, same) = c_string-overlay text beyond buffer h.1 (omega (arith, e)) in
    (tail, rw (h.0, same) refl)

spaced-append : (fs : List Str) (s t : Str) → spaced fs s ++ t ≡ spaced fs (s ++ t)
unfolding spaced
spaced-append [] s t = refl
spaced-append (f ∷ fs) s t =
    append_assoc f (b' ' ∷ spaced fs s) t ∙ ap (λ r. f ++ b' ' ∷ r) (spaced-append fs s t)

two_numbers_lem :
    (nul : Bool) (utime stime rest : Str)
    → Lacks b' ' utime
    → Lacks b' ' stime
    → two_numbers nul (some (utime ++ b' ' ∷ (stime ++ b' ' ∷ rest)))
      ≡ some (number utime, number stime)
unfolding two_numbers strsep atoi number unless_beyond
two_numbers_lem nul utime stime rest hu hs =
    rw
      (
        two_numbers,
        before-append b' ' utime (stime ++ b' ' ∷ rest) hu,
        behind-append b' ' utime (stime ++ b' ' ∷ rest) hu,
        before-append b' ' stime rest hs,
        behind-append b' ' stime rest hs,
      )
      refl

-- fifteen fields, each with a space behind it
abbrev pub fifteen : List Str → Str → Str → Str
fifteen fs utime stime = spaced fs (utime ++ b' ' ∷ (stime ++ b' ' ∷ []))

-- `read_utime_stime` gives the numbers of the 14th and the 15th of the parts that spaces divide the
-- file into, whatever follows them, where they fit the buffer and have no NUL; so a space in the
-- name of the program, the second field, moves them by one.
pub read_utime_stime-fifteen :
    (fs : List Str) (utime stime : Str) (beyond buffer : Bytes)
    → length fs ≡ 13
    → All (Lacks b' ') fs
    → Lacks b' ' utime
    → Lacks b' ' stime
    → Lacks 0 (fifteen fs utime stime)
    → length (fifteen fs utime stime) ≤ length buffer
    → (read_utime_stime (some (fifteen fs utime stime ++ beyond)) buffer).0
      ≡ some (number utime, number stime)
unfolding read_utime_stime read_into
read_utime_stime-fifteen fs utime stime beyond buffer n hf hu hs clean fits =
    let (tail, same) = c_string-overlay (fifteen fs utime stime) beyond buffer clean fits in
    let nul = has_nul (overlay (fifteen fs utime stime ++ beyond) buffer) in
    let last = utime ++ b' ' ∷ (stime ++ b' ' ∷ tail) in
    let text : fifteen fs utime stime ++ tail ≡ spaced fs last =
      spaced-append fs (utime ++ b' ' ∷ (stime ++ b' ' ∷ [])) tail
      ∙ ap (spaced fs) (
          append_assoc utime (b' ' ∷ (stime ++ b' ' ∷ [])) tail
          ∙ ap (λ r. utime ++ b' ' ∷ r) (append_assoc stime (b' ' ∷ []) tail)) in
    let dropped : drop_fields 13 (some (spaced fs last)) ≡ some last =
      subst (λ k. drop_fields k (some (spaced fs last)) ≡ some last) n
        (drop_fields-spaced fs last hf) in
    ap (λ s. two_numbers nul (drop_fields 13 (some s))) (same ∙ text)
    ∙ ap (two_numbers nul) dropped
    ∙ two_numbers_lem nul utime stime tail hu hs

-- fields with a space between them
unfoldable pub joined : Str → List Str → Str
joined f [] = f
joined f (g ∷ gs) = f ++ b' ' ∷ joined g gs

-- the sum of the numbers of the fields, and of `totaltime`
unfoldable pub total : ℤ → Str → List Str → ℤ
unfolding number ◌+ℤ◌
total totaltime f [] = totaltime +ℤ number f
total totaltime f (g ∷ gs) = total (totaltime +ℤ number f) g gs

add_fields-joined :
    (fuel : ℕ) (totaltime : ℤ) (f : Str) (gs : List Str)
    → length gs + 1 < fuel
    → All (Lacks b' ') (f ∷ gs)
    → add_fields fuel totaltime (some (joined f gs)) ≡ some (total totaltime f gs)
unfolding add_fields joined total strsep atoi number add_number
add_fields-joined zero totaltime f gs lt h = absurd (omega arith)
add_fields-joined (suc zero) totaltime f gs lt h = absurd (omega arith)
add_fields-joined (suc (suc fuel)) totaltime f [] lt h =
    rw (add_fields, before-all b' ' f h.0, behind-all b' ' f h.0) refl
add_fields-joined (suc (suc fuel)) totaltime f (g ∷ gs) lt h =
    rw (add_fields, before-append b' ' f (joined g gs) h.0, behind-append b' ' f (joined g gs) h.0)
      (add_fields-joined (suc fuel) (totaltime +ℤ number f) g gs (omega arith) h.1)

length-joined : (f : Str) (gs : List Str) → length gs ≤ length (joined f gs)
unfolding joined
length-joined f [] = omega arith
length-joined f (g ∷ gs) = omega (arith, length-append f (b' ' ∷ joined g gs), length-joined g gs)

-- The first line of the file: a name, a space and the fields
abbrev pub line : Str → Str → List Str → Str
line name f gs = name ++ b' ' ∷ joined f gs

sum_line_lem :
    (nul : Bool) (name f : Str) (gs : List Str) (tail : Bytes) (totaltime : ℤ)
    → Lacks b' ' name
    → All (Lacks b' ') (f ∷ gs)
    → Lacks 10 (line name f gs)
    → sum_line totaltime nul (line name f gs ++ 10 ∷ tail) ≡ some (total totaltime f gs)
unfolding sum_line strsep unless_beyond
sum_line_lem nul name f gs tail totaltime hn hf one_line =
    let enough : length gs + 1 < suc (suc (length (line name f gs ++ 10 ∷ tail))) = omega (
      arith,
      length-append (line name f gs) (10 ∷ tail),
      length-append name (b' ' ∷ joined f gs),
      length-joined f gs,
    ) in
    rw
      (
        sum_line,
        before-append 10 (line name f gs) tail one_line,
        behind-append 10 (line name f gs) tail one_line,
        behind-append b' ' name (joined f gs) hn,
      )
      (add_fields-joined (suc (suc (length (line name f gs ++ 10 ∷ tail)))) totaltime f gs enough
        hf)

-- `read_totaltime` adds the numbers of the fields of the first line to what `totaltime` holds, whatever
-- follows the line, where the line fits the buffer and has no NUL.
pub read_totaltime-line :
    (name f : Str) (gs : List Str) (beyond buffer : Bytes) (totaltime : ℤ)
    → Lacks b' ' name
    → All (Lacks b' ') (f ∷ gs)
    → Lacks 10 (line name f gs)
    → Lacks 0 (line name f gs ++ 10 ∷ [])
    → length (line name f gs ++ 10 ∷ []) ≤ length buffer
    → (read_totaltime (some ((line name f gs ++ 10 ∷ []) ++ beyond)) buffer totaltime).0
      ≡ some (total totaltime f gs)
unfolding read_totaltime read_into
read_totaltime-line name f gs beyond buffer totaltime hn hf one_line clean fits =
    let (tail, same) = c_string-overlay (line name f gs ++ 10 ∷ []) beyond buffer clean fits in
    let nul = has_nul (overlay ((line name f gs ++ 10 ∷ []) ++ beyond) buffer) in
    ap (sum_line totaltime nul) (same ∙ append_assoc (line name f gs) (10 ∷ []) tail)
    ∙ sum_line_lem nul name f gs tail totaltime hn hf one_line
