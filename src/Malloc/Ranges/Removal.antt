-- ===== src/Malloc/Ranges/Removal.antt =====
-- mdriver.c, `remove_range`: which record it takes out, and what it does to the others.
use decs.Base.{
  ℕ, ◌≡◌, ◌≢◌, refl, inl, inr, List, [], ◌∷◌, ◌++◌, arith, ◌==◌, ==_iff, All, Pairwise, All-mono,
  Bool-cases, sym, ◌∙◌,
}
use decs.Malloc.Ranges.{Range, remove_range}

abbrev pub StartsAt : ℕ → Range → Type 0
StartsAt lo p = p.lo ≡ lo

-- A property of all records is one of those that are left.
pub remove_range-All {κ} :
    (P : Range → Type κ) (ps : List Range) (lo : ℕ) → All P ps → All P (remove_range ps lo)
unfolding remove_range
remove_range-All P [] lo h = tt
remove_range-All P (p ∷ ps) lo h = elim (Bool-cases (p.lo == lo)) [
  | inl here ↦ rw here h.1
  | inr there ↦ rw there (h.0, remove_range-All _ ps lo h.1)
]

pub remove_range-Pairwise {κ} :
    (R : Range → Range → Type κ) (ps : List Range) (lo : ℕ)
    → Pairwise R ps
    → Pairwise R (remove_range ps lo)
unfolding remove_range
remove_range-Pairwise R [] lo h = tt
remove_range-Pairwise R (p ∷ ps) lo h = elim (Bool-cases (p.lo == lo)) [
  | inl here ↦ rw here h.1
  | inr there ↦ rw there (remove_range-All _ ps lo h.0, remove_range-Pairwise R ps lo h.1)
]

-- With no record at the address the list stays as it is.
pub remove_range_absent :
    (ps : List Range) (lo : ℕ) → All (λ p. ¬ StartsAt lo p) ps → remove_range ps lo ≡ ps
unfolding remove_range
remove_range_absent [] lo h = refl
remove_range_absent (p ∷ ps) lo h = ground (arith, h.0, remove_range_absent ps lo h.1)

-- `remove_range` takes out the first record that starts at the address and no other: what stands
-- before it and behind it keeps its place.
pub remove_range-append :
    (before : List Range) (p : Range) (after : List Range)
    → All (λ q. ¬ StartsAt p.lo q) before
    → remove_range (before ++ p ∷ after) p.lo ≡ before ++ after
unfolding remove_range
remove_range-append [] p after h = ground arith
remove_range-append (q ∷ before) p after h =
    ground (arith, h.0, remove_range-append before p after h.1)

-- Where no two records start at one address, none that is left starts at the address removed.
pub remove_range-gone :
    (ps : List Range) (lo : ℕ)
    → Pairwise (λ p q. p.lo ≢ q.lo) ps
    → All (λ p. ¬ StartsAt lo p) (remove_range ps lo)
unfolding remove_range
remove_range-gone [] lo h = tt
remove_range-gone (p ∷ ps) lo h = elim (Bool-cases (p.lo == lo)) [
  | inl here ↦ rw here (All-mono ps (λ q g s. g ((==_iff p.lo lo).0 here ∙ sym s)) h.0)
  | inr there ↦ rw there ((λ s. ground arith), remove_range-gone ps lo h.1)
]
