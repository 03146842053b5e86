-- ===== src/Timing/Best.antt =====
-- fcyc.c: the array holds the K least samples in order.
use decs.Timing.Settling.{IsSorted, settle-count, settle-IsSorted}
use mathlib.Core.Path.{subst}
use decs.Base.{
  ℕ, ◌≤◌, ◌<◌, ◌≡◌, Bool, arith, suc, ltb, leb, Bool-cases, dec_lt, if◌then◌else◌, ◌+◌, ◌∙◌, true,
  false, inl, inr, ◌-◌,
}
use decs.Base.Family.{put, count, count-put, count-le, count_every, one_if, count-put_outside}
use decs.Timing.{Sampler, settle, add_sample, init_sampler}

abbrev pub lesser : ℕ → ℕ → ℕ
lesser m n = if ltb m n then m else n

abbrev pub at_most : ℕ → ℕ → Bool
at_most t v = leb v t

-- The array after `n` samples: in order, and with as many values up to each `t` as there are samples
-- up to `t`, but no more than `k`. So it holds the `k` least samples.
pub record IsBest (k n : ℕ) (cycles : ℕ → ℕ) (s : Sampler) : Type 0 where
  pub counted : s.samplecount ≡ n
  pub sorted : IsSorted (lesser n k) s.values
  pub best :
      (t : ℕ) → count (at_most t) (lesser n k) s.values ≡ lesser (count (at_most t) n cycles) k

pub init_sampler-IsBest : (k : ℕ) (cycles : ℕ → ℕ) → IsBest k 0 cycles init_sampler
unfolding init_sampler count
init_sampler-IsBest k cycles = record {
  counted = omega arith;
  sorted = λ i j le lt. absurd (ground arith);
  best = λ t. ground arith;
}

-- All of the first `n` values are at most `t`, if the last one is.
all_at_most :
    (n : ℕ) (v : ℕ → ℕ) (t : ℕ) → IsSorted (suc n) v → v n ≤ t → count (at_most t) (suc n) v ≡ suc n
all_at_most n v t h le =
    count_every (at_most t) (suc n) v (λ i lt. ground (arith, h i n (omega arith) (omega arith)))

not_all : (n : ℕ) (v : ℕ → ℕ) (t : ℕ) → t < v n → count (at_most t) (suc n) v ≤ n
unfolding count
not_all n v t lt = ground (arith, count-le (at_most t) n v)

-- The array is not full.
add-best :
    (n x t : ℕ) (v : ℕ → ℕ)
    → count (at_most t) (suc n) (settle n (put v n x))
      ≡ count (at_most t) n v + one_if (at_most t x)
unfolding count
add-best n x t v =
    settle-count (at_most t) (suc n) n (put v n x) (omega arith)
    ∙ ground (arith, count-put_outside (at_most t) n v n x (omega arith))

-- The largest value gives way to a smaller one.
replace-best :
    (n x t c : ℕ) (v : ℕ → ℕ)
    → IsSorted (suc n) v
    → x < v n
    → count (at_most t) (suc n) v ≡ lesser c (suc n)
    → count (at_most t) (suc n) (settle n (put v n x)) ≡ lesser (c + one_if (at_most t x)) (suc n)
replace-best n x t c v h lt e =
    settle-count (at_most t) (suc n) n (put v n x) (omega arith)
    ∙ ground (
      arith,
      e,
      count-put (at_most t) (suc n) v n x (omega arith),
      all_at_most n v t h,
      not_all n v t,
    )

-- A value that is not smaller than the largest changes nothing.
keep-best :
    (n x t c : ℕ) (v : ℕ → ℕ)
    → IsSorted (suc n) v
    → v n ≤ x
    → count (at_most t) (suc n) v ≡ lesser c (suc n)
    → count (at_most t) (suc n) v ≡ lesser (c + one_if (at_most t x)) (suc n)
keep-best n x t c v h le e = ground (arith, e, all_at_most n v t h)

early-IsBest :
    (k n : ℕ) (cycles : ℕ → ℕ) (s : Sampler)
    → n < k
    → IsBest k n cycles s
    → IsBest k
        (suc n)
        cycles
        (record { values = settle n (put s.values n (cycles n)); samplecount = n + 1 })
unfolding count
early-IsBest k n cycles s lt b =
    let all : lesser n k ≡ n = ground arith in
    let more : lesser (suc n) k ≡ suc n = ground arith in
    let before : IsSorted n s.values = subst (λ m. IsSorted m s.values) all b.sorted in
    let sorted : IsSorted (suc n) (settle n (put s.values n (cycles n))) =
      settle-IsSorted n (put s.values n (cycles n)) (λ i j le l. ground (arith, before i j le l)) in
    record {
      counted = omega arith;
      sorted = rw more sorted;
      best = λ t.
          let old : count (at_most t) n s.values ≡ lesser (count (at_most t) n cycles) k =
            subst (λ m. count (at_most t) m s.values ≡ lesser (count (at_most t) n cycles) k) all
              (b.best t) in
          rw (more, add-best n (cycles n) t s.values)
            (ground (arith, old, count-le (at_most t) n cycles));
    }

late-IsBest :
    (k n : ℕ) (cycles v : ℕ → ℕ) (s : Sampler)
    → suc k ≤ n
    → IsBest (suc k) n cycles s
    → IsSorted (suc k) v
    → ((t : ℕ)
        → count (at_most t) (suc k) s.values ≡ lesser (count (at_most t) n cycles) (suc k)
        → count (at_most t) (suc k) v
          ≡ lesser (count (at_most t) n cycles + one_if (at_most t (cycles n))) (suc k))
    → IsBest (suc k) (suc n) cycles (record { values = v; samplecount = n + 1 })
unfolding count
late-IsBest k n cycles v s le b sorted step =
    let full : lesser n (suc k) ≡ suc k = ground arith in
    let still : lesser (suc n) (suc k) ≡ suc k = ground arith in
    record {
      counted = omega arith;
      sorted = rw still sorted;
      best = λ t. rw still (
          step t (
            subst (λ m. count (at_most t) m s.values ≡ lesser (count (at_most t) n cycles) (suc k))
              full (b.best t)));
    }

pub add_sample-IsBest :
    (k n : ℕ) (cycles : ℕ → ℕ) (s : Sampler)
    → IsBest (suc k) n cycles s
    → IsBest (suc k) (suc n) cycles (add_sample (suc k) (cycles n) s)
unfolding add_sample
add_sample-IsBest k n cycles s b =
    elim (dec_lt n (suc k))
      as (λ _. IsBest (suc k) (suc n) cycles (add_sample (suc k) (cycles n) s)) [
        | yes early ↦
            let room : ltb n (suc k) ≡ true = ground arith in
            rw (b.counted, room) (early-IsBest (suc k) n cycles s early b)
        | no late ↦
            let no_room : ltb n (suc k) ≡ false = ground arith in
            let full : lesser n (suc k) ≡ suc k = ground arith in
            let before : IsSorted (suc k) s.values =
              subst (λ m. IsSorted m s.values) full b.sorted in
            let last : suc k - 1 ≡ k = omega arith in
            rw (b.counted, no_room, last)
              (elim (Bool-cases (ltb (cycles n) (s.values k))) [
                | inl smaller ↦ rw smaller (
                    late-IsBest k n cycles (settle k (put s.values k (cycles n))) s (ground arith) b
                      (settle-IsSorted k (put s.values k (cycles n))
                        (λ i j le l. ground (arith, before i j le (omega arith))))
                      (λ t.
                        replace-best k (cycles n) t (count (at_most t) n cycles) s.values before
                          (ground (arith, smaller))))
                | inr larger ↦ rw larger (
                    late-IsBest k n cycles s.values s (ground arith) b before (λ t.
                      keep-best k (cycles n) t (count (at_most t) n cycles) s.values before
                        (ground (arith, larger))))
              ])
      ]
