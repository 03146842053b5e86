-- ===== src/Timing/Loop.antt =====
-- fcyc.c: what `fcyc` returns.
use decs.Base.Family.{count, count_positive, count_none}
use decs.Base.{
  ℕ, refl, Bool, ◌<◌, suc, ◌≡◌, ◌≤◌, zero, arith, true, ◌+◌, some, dec_lt, not, if◌then◌else◌,
  false, ◌&&◌, ltb, Bool-cases, inr, ◌∙◌, inl, Option, ap, ◌-◌,
}
use decs.Timing.{
  Sampler, Settings, add_sample, init_sampler, has_converged, sample_loop, fcyc, first_value,
}
use decs.Timing.Best.{IsBest, add_sample-IsBest, init_sampler-IsBest, lesser, at_most}

-- The least of the first `n + 1` numbers
unfoldable pub least : ℕ → (ℕ → ℕ) → ℕ
least zero f = f 0
least (suc n) f = lesser (least n f) (f (suc n))

-- the sampler after `n` samples
unfoldable pub sampled : ℕ → (ℕ → ℕ) → ℕ → Sampler
unfolding init_sampler add_sample
sampled k cycles zero = init_sampler
sampled k cycles (suc n) = add_sample k (cycles n) (sampled k cycles n)

-- After `n` samples the array of the sampler is in order, and holds as many values up to any `t` as
-- there are samples up to `t`, but no more than `k`: these are the `k` least samples, where there
-- are so many.
pub sampled-IsBest :
    (k : ℕ) (cycles : ℕ → ℕ) (n : ℕ) → 0 < k → IsBest k n cycles (sampled k cycles n)
unfolding sampled
sampled-IsBest zero cycles n p = absurd (omega arith)
sampled-IsBest (suc k) cycles zero p = init_sampler-IsBest (suc k) cycles
sampled-IsBest (suc k) cycles (suc n) p =
    add_sample-IsBest k n cycles (sampled (suc k) cycles n) (sampled-IsBest (suc k) cycles n p)

-- How many samples are up to a number below the least one, and up to another
least_above : (n : ℕ) (f : ℕ → ℕ) (t : ℕ) → t < least n f → count (at_most t) (suc n) f ≡ 0
unfolding least count
least_above zero f t h = ground arith
least_above (suc n) f t h = ground (arith, least_above n f t)

least_below : (n : ℕ) (f : ℕ → ℕ) (t : ℕ) → least n f ≤ t → 0 < count (at_most t) (suc n) f
unfolding least count
least_below zero f t h = ground arith
least_below (suc n) f t h = ground (arith, least_below n f t)

-- So the first value is the least sample.
first-least :
    (k n : ℕ) (cycles : ℕ → ℕ) (s : Sampler)
    → IsBest (suc k) (suc n) cycles s
    → s.values 0 ≡ least n cycles
first-least k n cycles s b = elim (dec_lt (s.values 0) (least n cycles)) [
  | yes under ↦
      let none_at = least_above n cycles (s.values 0) under in
      let one_at =
        count_positive (at_most (s.values 0)) (lesser (suc n) (suc k)) s.values 0 (ground arith)
          (ground arith) in
      absurd (ground (arith, b.best (s.values 0), none_at, one_at))
  | no above ↦ elim (dec_lt (least n cycles) (s.values 0)) [
    | yes over ↦
        let some_at = least_below n cycles (least n cycles) (omega arith) in
        let none_at =
          count_none (at_most (least n cycles)) (lesser (suc n) (suc k)) s.values
            (λ i lt. ground (arith, b.sorted 0 i (omega arith) lt)) in
        absurd (ground (arith, b.best (least n cycles), none_at, some_at))
    | no same ↦ omega arith
  ]
]

first-least_kept :
    (k n : ℕ) (cycles : ℕ → ℕ) → 0 < k → (sampled k cycles (suc n)).values 0 ≡ least n cycles
first-least_kept zero n cycles p = absurd (omega arith)
first-least_kept (suc k) n cycles p =
    first-least k n cycles (sampled (suc k) cycles (suc n))
      (sampled-IsBest (suc k) cycles (suc n) p)

-- The loop's condition after `n` samples: they are too far apart, and more may be taken.
unfoldable pub goes_on : {E : Type 0} → (E → ℕ → ℕ → Bool) → Settings E → (ℕ → ℕ) → ℕ → Bool
unfolding has_converged sampled
goes_on within c cycles n =
    not (has_converged within c (sampled c.kbest cycles n)) && ltb n c.maxsamples

module _ {E : Type 0} (within : E → ℕ → ℕ → Bool) (c : Settings E) (cycles : ℕ → ℕ)
    (some_kept : 0 < c.kbest) where
  counted : (n : ℕ) → (sampled c.kbest cycles n).samplecount ≡ n
  counted n = (sampled-IsBest c.kbest cycles n some_kept).counted

  over : (n : ℕ) → c.maxsamples ≤ suc n → goes_on within c cycles (suc n) ≡ false
  unfolding goes_on
  over n h = ground arith

  earlier :
      (n m : ℕ)
      → goes_on within c cycles (suc n) ≡ true
      → ((i : ℕ) → suc n ≤ i → i < m → goes_on within c cycles (suc i) ≡ true)
      → (i : ℕ) → n ≤ i
      → i < m
      → goes_on within c cycles (suc i) ≡ true
  earlier n m on before i le lt = elim (dec_lt n i) [
    | yes later ↦ before i later lt
    | no here ↦ let same : i ≡ n = omega arith in rw same on
  ]

  -- What the loop does with a sampler `t`
  proceed : ℕ → Sampler → ℕ → Option Sampler
  proceed fuel t n =
      if not (has_converged within c t) && ltb n c.maxsamples
      then sample_loop within c cycles fuel t
      else some t

  round :
      (fuel n : ℕ)
      → sample_loop within c cycles (suc fuel) (sampled c.kbest cycles n) ≡ (
          if goes_on within c cycles (suc n)
          then sample_loop within c cycles fuel (sampled c.kbest cycles (suc n))
          else some (sampled c.kbest cycles (suc n)))
  unfolding sample_loop sampled goes_on proceed
  round fuel n =
      let s = sampled c.kbest cycles n in
      ap
        (λ m.
          proceed fuel (add_sample c.kbest (cycles m) s)
            (add_sample c.kbest (cycles m) s).samplecount)
        (counted n)
      ∙ ap (proceed fuel (sampled c.kbest cycles (suc n))) (counted (suc n))

  sample_loop_lem :
      (fuel n : ℕ)
      → c.maxsamples ≤ fuel + n
      → (m : ℕ) × (n ≤ m)
        × (goes_on within c cycles (suc m) ≡ false)
        × ((i : ℕ) → n ≤ i → i < m → goes_on within c cycles (suc i) ≡ true)
        × (sample_loop within c cycles (suc fuel) (sampled c.kbest cycles n)
            ≡ some (sampled c.kbest cycles (suc m)))
  sample_loop_lem zero n h =
      let stop : goes_on within c cycles (suc n) ≡ false = over n (omega arith) in
      (n, omega arith, stop, (λ i le lt. absurd (omega arith)), round zero n ∙ rw stop refl)
  sample_loop_lem (suc fuel) n h = elim (Bool-cases (goes_on within c cycles (suc n))) [
    | inr stop ↦
        (n, omega arith, stop, (λ i le lt. absurd (omega arith)), round (suc fuel) n ∙ rw stop refl)
    | inl on ↦
        let (m, above, stop, before, e) = sample_loop_lem fuel (suc n) (omega arith) in
        (m, omega arith, stop, earlier n m on before, round (suc fuel) n ∙ rw on e)
  ]

going-lt :
    {E : Type 0} (within : E → ℕ → ℕ → Bool) (c : Settings E) (cycles : ℕ → ℕ) (n : ℕ)
    → goes_on within c cycles n ≡ true
    → n < c.maxsamples
unfolding goes_on
going-lt within c cycles n e = ground (arith, e)

few_samples :
    {E : Type 0} (within : E → ℕ → ℕ → Bool) (c : Settings E) (cycles : ℕ → ℕ) (m : ℕ)
    → ((i : ℕ) → i < m → goes_on within c cycles (suc i) ≡ true)
    → m ≤ c.maxsamples - 1
few_samples within c cycles zero h = omega arith
few_samples within c cycles (suc m) h =
    omega (arith, going-lt within c cycles (suc m) (h m (omega arith)))

abbrev pub counter_of : {E : Type 0} → Settings E → (ℕ → ℕ) → (ℕ → ℕ) → ℕ → ℕ
counter_of c comp_counter counter = if c.compensate then comp_counter else counter

-- `fcyc` returns, where `kbest` is not 0: it takes one sample and then others as long as those so far
-- have not converged and are fewer than `maxsamples`, and its result is the least of all of them.
pub fcyc-least :
    {E : Type 0} (within : E → ℕ → ℕ → Bool) (c : Settings E) (comp_counter counter : ℕ → ℕ)
    → 0 < c.kbest
    → (m : ℕ) × (m ≤ c.maxsamples - 1)
      × ((i : ℕ) → i < m → goes_on within c (counter_of c comp_counter counter) (suc i) ≡ true)
      × (goes_on within c (counter_of c comp_counter counter) (suc m) ≡ false)
      × (fcyc within c comp_counter counter ≡ some (least m (counter_of c comp_counter counter)))
unfolding fcyc sampled first_value
fcyc-least within c comp_counter counter p =
    let cycles = counter_of c comp_counter counter in
    let (m, _, stop, before, e) = sample_loop_lem within c cycles p c.maxsamples 0 (omega arith) in
    let on : (i : ℕ) → i < m → goes_on within c cycles (suc i) ≡ true =
      λ i lt. before i (omega arith) lt in
    (
      m,
      few_samples within c cycles m on,
      on,
      stop,
      ap first_value e ∙ ap some (first-least_kept c.kbest m cycles p),
    )
