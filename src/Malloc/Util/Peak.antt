-- ===== src/Malloc/Util/Peak.antt =====
-- mdriver.c, `eval_mm_util` on any package: the high water mark is the largest total of a prefix.
use decs.Base.Words.{to_size_t, to_int, to_int_small}
use decs.Malloc.Driver.{World, update, OpType, TraceOp, alloc, realloc, free}
use decs.Malloc.Package.{Package}
use decs.Base.Int.{◌≤ℤ◌, ℤ, pos, ◌-ℤ◌, int_laws, negsuc, -ℤ_parts}
use decs.Malloc.Util.{
  Usage, grow, util_alloc, put_block, util_realloc, util_free, util_op, util_ops, run_util, restart,
  no_usage,
}
use mathlib.Core.Path.{subst}
use decs.Base.{
  ℕ, ◌≡◌, ◌⊎◌, arith, some, ◌<◌, ◌^◌, List, inl, ◌∷◌, [], Option-cases, refl, inr, take, All, ◌∙◌,
  suc, sym, zero,
}

-- After each request the mark is the larger of the old mark and the new total.
record Steps (u v : Usage) : Type 0 where
  mono : u.high ≤ℤ v.high
  covers : v.total ≤ℤ v.high
  reached : (v.high ≡ u.high) ⊎ (v.high ≡ v.total)

grow-Steps : (by : ℤ) (u : Usage) (w : World) → Steps u (grow by (record u { world = w }))
unfolding grow
grow-Steps by u w = record { mono = ground arith; covers = ground arith; reached = ground arith }

util_alloc-Steps :
    (pk : Package) (index : ℕ) (size : ℤ) (u : Usage) {v : Usage}
    → util_alloc pk index size u ≡ some v
    → Steps u v
unfolding util_alloc
util_alloc-Steps pk index size u {v} e =
    let (p, h) = pk.malloc (to_size_t size) u.world.machine in
    let w = put_block index p size h u.world in
    let is : grow size (record u { world = w }) ≡ v = ground arith in rw is at (grow-Steps size u w)

util_realloc-Steps :
    (pk : Package) (index : ℕ) (size : ℤ) (u : Usage) {v : Usage}
    → util_realloc pk index size u ≡ some v
    → Steps u v
unfolding util_realloc
util_realloc-Steps pk index size u {v} e =
    let (p, h) = pk.realloc (u.world.blocks index) (to_size_t size) u.world.machine in
    let w = put_block index p size h u.world in
    let by = size -ℤ to_int (u.world.block_sizes index) in
    let is : grow by (record u { world = w }) ≡ v = ground arith in rw is at (grow-Steps by u w)

-- A size of a request is a number that an `int` holds and that is not negative.
abbrev pub IsSize : ℤ → Type 0
IsSize (pos n) = n < 2 ^ 31
IsSize (negsuc n) = ⊥

-- A number in the range of an `int`
abbrev pub IsInt : ℤ → Type 0
IsInt z = (negsuc 2147483647 ≤ℤ z) × (z ≤ℤ pos 2147483647)

-- The recorded sizes are numbers that an `int` holds.
abbrev pub AreInts : (ℕ → ℕ) → Type 0
AreInts sizes = (i : ℕ) → sizes i < 2 ^ 31

pub to_int_nonneg : (n : ℕ) → n < 2 ^ 31 → pos 0 ≤ℤ to_int n
to_int_nonneg n h = rw (to_int_small n h) (omega arith)

util_free-Steps :
    (pk : Package) (index : ℕ) (u : Usage) {v : Usage}
    → util_free pk index u ≡ some v
    → AreInts u.world.block_sizes
    → u.total ≤ℤ u.high
    → Steps u v
unfolding util_free
util_free-Steps pk index u {v} e ints below =
    let back = to_int_nonneg (u.world.block_sizes index) (ints index) in
    let high : v.high ≡ u.high = ground arith in
    let total : v.total ≡ u.total -ℤ to_int (u.world.block_sizes index) = ground arith in
    record {
      mono = rw high (omega arith);
      covers =
          rw (high, total)
            (omega (int_laws, -ℤ_parts u.total (to_int (u.world.block_sizes index))));
      reached = inl high;
    }

pub AreInts-update :
    (sizes : ℕ → ℕ) (index : ℕ) (size : ℤ)
    → AreInts sizes
    → IsSize size
    → AreInts (update sizes index (to_size_t size))
AreInts-update sizes index (pos n) ints is i = ground (arith, ints i)
AreInts-update sizes index (negsuc n) ints is i = absurd is

-- One request: the mark follows the totals, and the recorded sizes stay `int`s.
util_op-Steps :
    (pk : Package) (type : OpType) (index : ℕ) (size : ℤ) (u : Usage) {v : Usage}
    → util_op pk type index size u ≡ some v
    → IsSize size
    → AreInts u.world.block_sizes
    → u.total ≤ℤ u.high
    → Steps u v × AreInts v.world.block_sizes
unfolding util_op
util_op-Steps pk alloc index size u {v} e is ints below =
    let same : v.world.block_sizes ≡ update u.world.block_sizes index (to_size_t size) =
      unfold util_alloc grow in ground arith in
    (util_alloc-Steps pk index size u e, rw same (AreInts-update _ index size ints is))
util_op-Steps pk realloc index size u {v} e is ints below =
    let same : v.world.block_sizes ≡ update u.world.block_sizes index (to_size_t size) =
      unfold util_realloc grow in ground arith in
    (util_realloc-Steps pk index size u e, rw same (AreInts-update _ index size ints is))
util_op-Steps pk free index size u {v} e is ints below =
    let same : v.world.block_sizes ≡ u.world.block_sizes = unfold util_free in ground arith in
    (util_free-Steps pk index u e ints below, rw same ints)

-- What the final state says of a run: the mark is at least each total on the way, and it is its first
-- value or one of those totals.
pub record Marks (pk : Package) (ops : List TraceOp) (u v : Usage) : Type 0 where
  pub mono : u.high ≤ℤ v.high
  pub bound : (n : ℕ) (t : Usage) → util_ops pk (take n ops) u ≡ some t → t.total ≤ℤ v.high
  pub reached :
      (v.high ≡ u.high)
      ⊎ ((n : ℕ) × (t : Usage) × (util_ops pk (take n ops) u ≡ some t) × (t.total ≡ v.high))

-- A run of a request and of the rest, from a run of both.
util_ops-cons :
    (pk : Package) (op : TraceOp) (ops : List TraceOp) (u : Usage) {v : Usage}
    → util_ops pk (op ∷ ops) u ≡ some v
    → (t : Usage) × (util_op pk op.type op.index op.size u ≡ some t) × (util_ops pk ops t ≡ some v)
unfolding util_ops
util_ops-cons pk op ops u e = elim (Option-cases (util_op pk op.type op.index op.size u)) [
  | inl stop ↦ absurd (ground arith)
  | inr (t, next) ↦ (t, next, ground arith)
]

util_ops-step :
    (pk : Package) (op : TraceOp) (ops : List TraceOp) (u t : Usage)
    → util_op pk op.type op.index op.size u ≡ some t
    → util_ops pk (op ∷ ops) u ≡ util_ops pk ops t
unfolding util_ops
util_ops-step pk op ops u t next = ground arith

util_ops-nil : (pk : Package) (u t : Usage) → util_ops pk [] u ≡ some t → u ≡ t
unfolding util_ops
util_ops-nil pk u t run = cc

module _ (pk : Package) (op : TraceOp) (ops : List TraceOp) (u s v : Usage)
    (below : u.total ≤ℤ u.high) (next : util_op pk op.type op.index op.size u ≡ some s)
    (step : Steps u s) (rest : Marks pk ops s v) where
  Marks-bound : (n : ℕ) (t : Usage) → util_ops pk (take n (op ∷ ops)) u ≡ some t → t.total ≤ℤ v.high
  Marks-bound zero t run =
      rw (← util_ops-nil pk u t run) (omega (arith, step.mono, rest.mono, below))
  Marks-bound (suc n) t run = rest.bound n t (sym (util_ops-step pk op (take n ops) u s next) ∙ run)

  Marks-reached :
      (v.high ≡ u.high)
      ⊎ ((n : ℕ) × (t : Usage) × (util_ops pk (take n (op ∷ ops)) u ≡ some t) × (t.total ≡ v.high))
  unfolding util_ops
  Marks-reached = elim rest.reached [
    | inl same ↦ elim step.reached [
      | inl still ↦ inl (same ∙ still)
      | inr here ↦ inr (1, s, util_ops-step pk op [] u s next, sym (same ∙ here))
    ]
    | inr (n, t, run, top) ↦ inr (suc n, t, util_ops-step pk op (take n ops) u s next ∙ run, top)
  ]

  Marks-cons : Marks pk (op ∷ ops) u v
  Marks-cons = record {
    mono = omega (arith, step.mono, rest.mono);
    bound = Marks-bound;
    reached = Marks-reached;
  }

module _ (pk : Package) where
  Marks-nil : (u : Usage) → u.total ≤ℤ u.high → Marks pk [] u u
  Marks-nil u below = record {
    mono = omega arith;
    bound = λ n t run. Marks-bound_nil n t run;
    reached = inl refl;
  }
    where
      Marks-bound_nil : (n : ℕ) (t : Usage) → util_ops pk (take n []) u ≡ some t → t.total ≤ℤ u.high
      Marks-bound_nil zero t run = rw (← util_ops-nil pk u t run) below
      Marks-bound_nil (suc n) t run = rw (← util_ops-nil pk u t run) below

  util_ops-Marks :
      (ops : List TraceOp) (u : Usage) {v : Usage}
      → util_ops pk ops u ≡ some v
      → All (λ op. IsSize op.size) ops
      → AreInts u.world.block_sizes
      → u.total ≤ℤ u.high
      → Marks pk ops u v
  util_ops-Marks [] u {v} e sizes ints below =
      subst (Marks pk [] u) (util_ops-nil pk u v e) (Marks-nil u below)
  util_ops-Marks (op ∷ ops) u {v} e sizes ints below =
      let (s, next, run) = util_ops-cons pk op ops u e in
      let (step, ints') = util_op-Steps pk op.type op.index op.size u next sizes.0 ints below in
      Marks-cons pk op ops u s v below next step
        (util_ops-Marks ops s run sizes.1 ints' step.covers)

  -- For every package: in a run of `eval_mm_util` that comes to its end, over requests whose sizes fit an
  -- `int` and are not negative, started with recorded block sizes that fit an `int`, and in which
  -- `total_size` is in the range of an `int` after each number of requests, the high water mark
  -- `max_total_size` is the largest value of `total_size`: it is at least its value after each number
  -- of requests, it is 0 or one of those values, and it fits an `int`, so that nothing overflows.
  pub run_util-Marks :
      (ops : List TraceOp) (w w' : World) {v : Usage}
      → restart pk w ≡ some w'
      → run_util pk ops w ≡ some v
      → All (λ op. IsSize op.size) ops
      → AreInts w'.block_sizes
      → ((n : ℕ) (t : Usage) → util_ops pk (take n ops) (no_usage w') ≡ some t → IsInt t.total)
      → Marks pk ops (no_usage w') v × IsInt v.high
  unfolding run_util
  run_util-Marks ops w w' {v} begun e sizes ints fits =
      let marks : Marks pk ops (no_usage w') v =
        util_ops-Marks ops (no_usage w') (ground arith) sizes ints (omega arith) in
      (
        marks,
        elim marks.reached [
          | inl same ↦ rw same (omega arith)
          | inr (n, t, run, top) ↦ rw top at (fits n t run)
        ],
      )
