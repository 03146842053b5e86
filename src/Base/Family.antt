-- ===== src/Base/Family.antt =====
-- Families indexed by thread: a change at one index, and how many of the first `n` pass a test.
use decs.Base.{
  ℕ, zero, suc, ◌+◌, ◌≤◌, ◌<◌, ◌≡◌, refl, Bool, true, false, arith, ◌==◌, if◌then◌else◌, dec_lt,
  Bool-cases, inl, inr, ◌≢◌, ap, ◌∙◌, sym,
}

abbrev pub put {ℓ} : {A : Type ℓ} → (ℕ → A) → ℕ → A → ℕ → A
put f i a j = if i == j then a else f j

abbrev pub one_if : Bool → ℕ
one_if true = 1
one_if false = 0

module _ {ℓ} {A : Type ℓ} (test : A → Bool) where
  unfoldable pub count : ℕ → (ℕ → A) → ℕ
  count zero f = 0
  count (suc n) f = count n f + one_if (test (f n))

  pub count-le : (n : ℕ) (f : ℕ → A) → count n f ≤ n
  unfolding count
  count-le zero f = omega arith
  count-le (suc n) f = ground (arith, count-le n f)

  pub count-put_outside :
      (n : ℕ) (f : ℕ → A) (i : ℕ) (a : A) → n ≤ i → count n (put f i a) ≡ count n f
  unfolding count
  count-put_outside zero f i a h = refl
  count-put_outside (suc n) f i a h = ground (arith, count-put_outside n f i a)

  -- A change at one index changes the number by what the test says of the old and the new value.
  pub count-put :
      (n : ℕ) (f : ℕ → A) (i : ℕ) (a : A)
      → i < n
      → count n (put f i a) + one_if (test (f i)) ≡ count n f + one_if (test a)
  unfolding count
  count-put zero f i a h = absurd (omega arith)
  count-put (suc n) f i a h = elim (dec_lt i n) [
    | yes below ↦ ground (arith, count-put n f i a below)
    | no last ↦
        let here : i ≡ n = omega arith in rw here (ground (arith, count-put_outside n f n a))
  ]

  pub count_none : (n : ℕ) (f : ℕ → A) → ((i : ℕ) → i < n → test (f i) ≡ false) → count n f ≡ 0
  unfolding count
  count_none zero f h = refl
  count_none (suc n) f h =
      ground (arith, h n (omega arith), count_none n f (λ i lt. h i (omega arith)))

  pub count_every : (n : ℕ) (f : ℕ → A) → ((i : ℕ) → i < n → test (f i) ≡ true) → count n f ≡ n
  unfolding count
  count_every zero f h = refl
  count_every (suc n) f h =
      ground (arith, h n (omega arith), count_every n f (λ i lt. h i (omega arith)))

  -- Fewer than `n` pass: one of them fails.
  pub count_fails : (n : ℕ) (f : ℕ → A) → count n f < n → (i : ℕ) × (i < n) × (test (f i) ≡ false)
  unfolding count
  count_fails zero f h = absurd (omega arith)
  count_fails (suc n) f h = elim (Bool-cases (test (f n))) [
    | inl pass ↦ let (i, lt, fails) = count_fails n f (ground arith) in (i, omega arith, fails)
    | inr fails ↦ (n, omega arith, fails)
  ]

  -- All pass: each one does.
  pub count_all : (n : ℕ) (f : ℕ → A) (i : ℕ) → count n f ≡ n → i < n → test (f i) ≡ true
  unfolding count
  count_all zero f i all lt = absurd (omega arith)
  count_all (suc n) f i all lt = elim (dec_lt i n) [
    | yes below ↦ count_all n f i (ground (arith, count-le n f)) below
    | no last ↦ let here : i ≡ n = omega arith in rw here (ground (arith, count-le n f))
  ]

  -- All but one pass: two that fail are the same.
  pub count_others :
      (n : ℕ) (f : ℕ → A) (i j : ℕ)
      → count n f + 1 ≡ n
      → i < n
      → j < n
      → test (f i) ≡ false
      → test (f j) ≡ false
      → i ≡ j
  unfolding count
  count_others zero f i j all hi hj ti tj = absurd (omega arith)
  count_others (suc n) f i j all hi hj ti tj = elim (Bool-cases (test (f n))) [
    | inl pass ↦
        let below : (k : ℕ) → k < suc n → test (f k) ≡ false → k < n =
          λ k lt fails. strict k lt (λ (e : k ≡ n). cc (ap (λ m. test (f m)) e)) in
        count_others n f i j (ground arith) (below i hi ti) (below j hj tj) ti tj
    | inr fails ↦
        let here : (k : ℕ) → k < suc n → test (f k) ≡ false → k ≡ n =
          λ k lt fail. last k lt (λ (under : k < n). cc (count_all n f k (ground arith) under)) in
        here i hi ti ∙ sym (here j hj tj)
  ]
    where
      strict : (k : ℕ) → k < suc n → k ≢ n → k < n
      strict k lt ne = omega arith

      last : (k : ℕ) → k < suc n → ¬ (k < n) → k ≡ n
      last k lt ne = omega arith

  -- Some pass: one of them does.
  pub count_passes : (n : ℕ) (f : ℕ → A) → 0 < count n f → (i : ℕ) × (i < n) × (test (f i) ≡ true)
  unfolding count
  count_passes zero f h = absurd (omega arith)
  count_passes (suc n) f h = elim (Bool-cases (test (f n))) [
    | inl pass ↦ (n, omega arith, pass)
    | inr fails ↦ let (i, lt, pass) = count_passes n f (ground arith) in (i, omega arith, pass)
  ]

  pub count_positive : (n : ℕ) (f : ℕ → A) (i : ℕ) → i < n → test (f i) ≡ true → 0 < count n f
  unfolding count
  count_positive zero f i lt pass = absurd (omega arith)
  count_positive (suc n) f i lt pass = elim (dec_lt i n) [
    | yes below ↦ omega (arith, count_positive n f i below pass)
    | no last ↦
        let here : n ≡ i = omega arith in
        let counted : one_if (test (f n)) ≡ 1 = rw here (rw pass) in omega arith
  ]

  -- At most one passes: two that do are the same.
  pub count_one :
      (n : ℕ) (f : ℕ → A) (i j : ℕ)
      → count n f ≤ 1
      → i < n
      → j < n
      → test (f i) ≡ true
      → test (f j) ≡ true
      → i ≡ j
  unfolding count
  count_one zero f i j one lti ltj ti tj = absurd (omega arith)
  count_one (suc n) f i j one lti ltj ti tj = elim (Bool-cases (test (f n))) [
    | inl pass ↦
        let alone : count n f ≡ 0 = ground arith in
        let here : (k : ℕ) → k < suc n → test (f k) ≡ true → k ≡ n =
          λ k lt t. last k lt (λ under. ground (arith, count_positive n f k under t)) in
        here i lti ti ∙ sym (here j ltj tj)
    | inr fails ↦
        let below : (k : ℕ) → k < suc n → test (f k) ≡ true → k < n =
          λ k lt t. strict k lt (λ (e : k ≡ n). cc (ap (λ m. test (f m)) e)) in
        count_one n f i j (ground arith) (below i lti ti) (below j ltj tj) ti tj
  ]
    where
      strict : (k : ℕ) → k < suc n → k ≢ n → k < n
      strict k lt ne = omega arith

      last : (k : ℕ) → k < suc n → ¬ (k < n) → k ≡ n
      last k lt ne = omega arith

  -- A change of every member that the test does not see.
  pub count-map :
      (n : ℕ) (f g : ℕ → A) → ((i : ℕ) → test (g i) ≡ test (f i)) → count n g ≡ count n f
  unfolding count
  count-map zero f g h = refl
  count-map (suc n) f g h = rw (count-map n f g h, h n)
