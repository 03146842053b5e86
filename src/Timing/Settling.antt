-- ===== src/Timing/Settling.antt =====
-- fcyc.c: the insertion sort of `add_sample`.
use decs.Base.Family.{put, count, count-put}
use decs.Timing.{settle}
use decs.Base.{ℕ, refl, ◌≤◌, ◌<◌, suc, Bool, ◌≡◌, arith, dec_lt, zero}

-- The first `n` entries are in order.
abbrev pub IsSorted : ℕ → (ℕ → ℕ) → Type 0
IsSorted n v = (i j : ℕ) → i ≤ j → j < n → v i ≤ v j

-- one exchange of the insertion sort
abbrev swapped : ℕ → (ℕ → ℕ) → ℕ → ℕ
swapped pos v = put (put v pos (v (suc pos))) (suc pos) (v pos)

settle_outside : (pos : ℕ) (v : ℕ → ℕ) (i : ℕ) → pos < i → settle pos v i ≡ v i
unfolding settle
settle_outside zero v i h = refl
settle_outside (suc pos) v i h = ground (arith, settle_outside pos (swapped pos v) i)

settle_bound :
    (pos : ℕ) (v : ℕ → ℕ) (b : ℕ)
    → ((i : ℕ) → i ≤ pos → v i ≤ b)
    → (i : ℕ) → i ≤ pos
    → settle pos v i ≤ b
unfolding settle
settle_bound zero v b h i le = h i le
settle_bound (suc pos) v b h i le =
    let low : (j : ℕ) → j ≤ pos → swapped pos v j ≤ b = λ j l. ground (arith, h j, h (suc pos)) in
    ground (
      arith,
      h i le,
      h pos (omega arith),
      settle_bound pos (swapped pos v) b low i,
      settle_outside pos (swapped pos v) i,
    )

swapped-IsSorted : (pos : ℕ) (v : ℕ → ℕ) → IsSorted (suc pos) v → IsSorted pos (swapped pos v)
swapped-IsSorted pos v h i j le lt = ground (arith, h i j le (omega arith))

-- The last entry is the largest.
settle_last :
    (pos : ℕ) (v : ℕ → ℕ) (i : ℕ)
    → IsSorted (suc pos) v
    → i ≤ pos
    → settle (suc pos) v i ≤ settle (suc pos) v (suc pos)
unfolding settle
settle_last pos v i h le =
    let w = swapped pos v in
    let low : v (suc pos) < v pos → (a : ℕ) → a ≤ pos → w a ≤ v pos =
      λ s a l. ground (arith, h a pos l (omega arith)) in
    let moved : v (suc pos) < v pos → settle pos w i ≤ v pos =
      λ s. settle_bound pos w (v pos) (low s) i le in
    ground (arith, settle_outside pos w (suc pos) (omega arith), moved, h i pos le (omega arith))

pub settle-IsSorted : (pos : ℕ) (v : ℕ → ℕ) → IsSorted pos v → IsSorted (suc pos) (settle pos v)
unfolding settle
settle-IsSorted zero v h i j le lt = let same : i ≡ j = omega arith in rw same (omega arith)
settle-IsSorted (suc pos) v h i j le lt =
    let sorted = settle-IsSorted pos (swapped pos v) (swapped-IsSorted pos v h) i j le in
    elim (dec_lt j (suc pos)) as (λ _. settle (suc pos) v i ≤ settle (suc pos) v j) [
      | yes early ↦ ground (arith, h i j le early, sorted early)
      | no late ↦ elim (dec_lt i (suc pos)) as (λ _. settle (suc pos) v i ≤ settle (suc pos) v j) [
        | yes before ↦
            let here : j ≡ suc pos = omega arith in rw here (settle_last pos v i h (omega arith))
        | no same ↦ let here : i ≡ j = omega arith in rw here (omega arith)
      ]
    ]

swap-count :
    (test : ℕ → Bool) (n pos : ℕ) (v : ℕ → ℕ)
    → suc pos < n
    → count test n (swapped pos v) ≡ count test n v
swap-count test n pos v lt = ground (
  arith,
  count-put test n (put v pos (v (suc pos))) (suc pos) (v pos) lt,
  count-put test n v pos (v (suc pos)) (omega arith),
)

pub settle-count :
    (test : ℕ → Bool) (n pos : ℕ) (v : ℕ → ℕ)
    → pos < n
    → count test n (settle pos v) ≡ count test n v
unfolding settle
settle-count test n zero v lt = refl
settle-count test n (suc pos) v lt =
    ground
      (arith, swap-count test n pos v lt, settle-count test n pos (swapped pos v) (omega arith))
