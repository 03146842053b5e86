-- ===== src/Malloc/Ranges/Checks.antt =====
-- mdriver.c, `add_range`: exactly which blocks pass its checks, and what the checks leave open.
use decs.Base.{
  ℕ, ◌+◌, ◌-◌, ◌%◌, ◌≤◌, ◌<◌, ◌≡◌, refl, ◌↔◌, ◌⊎◌, true, false, List, [], ◌∷◌, arith, All, All-mono,
}
use decs.Malloc.Memlib.{Mem, mem_heap_lo, mem_heap_hi}
use decs.Malloc.Memlib.Bounds.{IsMem}
use decs.Malloc.Ranges.{Range, is_aligned, lies_outside, meets, meets_any, accepted, add_range}

abbrev pub extent : ℕ → ℕ → Range
extent lo n = record { lo = lo; hi = lo + n - 1 }

abbrev pub IsIn : ℕ → Range → Type 0
IsIn a p = (p.lo ≤ a) × (a ≤ p.hi)

-- No address lies in both.
abbrev pub Disjoint : Range → Range → Type 0
Disjoint p q = (p.hi < q.lo) ⊎ (q.hi < p.lo)

-- `q` lies in the interior of `p`.
abbrev pub Swallows : Range → Range → Type 0
Swallows p q = (p.lo < q.lo) × (q.hi < p.hi)

-- Neither end of the block lies in the range `p`.
abbrev pub EndsMiss : ℕ → ℕ → Range → Type 0
EndsMiss lo n p = ¬ IsIn lo p × ¬ IsIn (lo + n - 1) p

-- What `add_range` asks of a block of `n` bytes at `lo`.
pub record Passes (ranges : List Range) (lo n : ℕ) (m : Mem) : Type 0 where
  pub aligned : lo % 8 ≡ 0
  pub from : m.start_brk ≤ lo
  pub upto : lo + n ≤ m.brk
  pub misses : All (EndsMiss lo n) ranges

meets-EndsMiss : (lo n : ℕ) (p : Range) → (meets lo (lo + n - 1) p ≡ false) ↔ EndsMiss lo n p
unfolding meets
meets-EndsMiss lo n p = (λ h. ground arith, λ h. ground arith)

meets_any-EndsMiss :
    (lo n : ℕ) (ps : List Range) → (meets_any lo (lo + n - 1) ps ≡ false) ↔ All (EndsMiss lo n) ps
unfolding meets_any
meets_any-EndsMiss lo n [] = (λ h. tt, λ h. refl)
meets_any-EndsMiss lo n (p ∷ ps) =
    let one = meets-EndsMiss lo n p in
    let rest = meets_any-EndsMiss lo n ps in
    (λ h. (one.0 (ground arith), rest.0 (ground arith)), λ h. ground (arith, one.1 h.0, rest.1 h.1))

is_aligned_iff : (p : ℕ) → (is_aligned p ≡ true) ↔ (p % 8 ≡ 0)
unfolding is_aligned
is_aligned_iff p = (λ h. ground arith, λ h. ground arith)

lies_outside_iff :
    (lo n : ℕ) {m : Mem}
    → IsMem m
    → 0 < n
    → (lies_outside lo (lo + n - 1) m ≡ false) ↔ ((m.start_brk ≤ lo) × (lo + n ≤ m.brk))
unfolding lies_outside mem_heap_lo mem_heap_hi
lies_outside_iff lo n v positive = (λ h. ground arith, λ h. ground arith)

module _ (ranges : List Range) (lo n : ℕ) {m : Mem} (v : IsMem m) (positive : 0 < n) where
  pub add_range-accepts :
      Passes ranges lo n m → add_range ranges lo n m ≡ accepted (extent lo n ∷ ranges)
  unfolding add_range
  add_range-accepts p = ground (
    arith,
    (is_aligned_iff lo).1 p.aligned,
    (lies_outside_iff lo n v positive).1 (p.from, p.upto),
    (meets_any-EndsMiss lo n ranges).1 p.misses,
  )

  pub add_range-Passes :
      {ranges' : List Range}
      → add_range ranges lo n m ≡ accepted ranges'
      → Passes ranges lo n m × (ranges' ≡ extent lo n ∷ ranges)
  unfolding add_range
  add_range-Passes {ranges'} e =
      let a : is_aligned lo ≡ true = ground arith in
      let b : lies_outside lo (lo + n - 1) m ≡ false = ground arith in
      let c : meets_any lo (lo + n - 1) ranges ≡ false = ground arith in
      let within = (lies_outside_iff lo n v positive).0 b in
      (
        record {
          aligned = (is_aligned_iff lo).0 a;
          from = within.0;
          upto = within.1;
          misses = (meets_any-EndsMiss lo n ranges).0 c;
        },
        ground arith,
      )

  -- On a well-formed heap `add_range` accepts a block of a positive size if and only if the block is
  -- aligned to 8, lies in the heap, and neither its first nor its last byte lies in a recorded
  -- range; it then puts the extent of the block in front of the list.
  pub add_range_iff :
      (add_range ranges lo n m ≡ accepted (extent lo n ∷ ranges)) ↔ Passes ranges lo n m
  add_range_iff = (λ e. (add_range-Passes e).0, add_range-accepts)

-- A range that neither end of the block meets is disjoint from the block, or lies inside it.
EndsMiss-Disjoint :
    (lo n : ℕ) (p : Range) → EndsMiss lo n p → Disjoint p (extent lo n) ⊎ Swallows (extent lo n) p
EndsMiss-Disjoint lo n p h = ground arith

-- Each range recorded before an accepted block is disjoint from the block, or lies in its interior.
pub add_range-Disjoint :
    (ranges : List Range) (lo n : ℕ) {m : Mem} {ranges' : List Range}
    → IsMem m
    → 0 < n
    → add_range ranges lo n m ≡ accepted ranges'
    → All (λ p. Disjoint p (extent lo n) ⊎ Swallows (extent lo n) p) ranges
add_range-Disjoint ranges lo n v positive e =
    All-mono ranges (EndsMiss-Disjoint lo n) (add_range-Passes ranges lo n v positive e).0.misses

-- A block that covers every recorded range, with a byte to spare at both ends, is accepted when it is
-- aligned and lies in the heap: the check for overlaps does not see it.
pub add_range-Swallows :
    (ranges : List Range) (lo n : ℕ) {m : Mem}
    → IsMem m
    → lo % 8 ≡ 0
    → m.start_brk ≤ lo
    → lo + n ≤ m.brk
    → 0 < n
    → All (λ p. Swallows (extent lo n) p) ranges
    → add_range ranges lo n m ≡ accepted (extent lo n ∷ ranges)
add_range-Swallows ranges lo n v aligned from upto positive inside =
    add_range-accepts ranges lo n v positive (record {
      aligned = aligned;
      from = from;
      upto = upto;
      misses = All-mono ranges (λ p h. ground arith) inside;
    })
