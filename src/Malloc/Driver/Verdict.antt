-- ===== src/Malloc/Driver/Verdict.antt =====
-- mdriver.c, `eval_mm_valid` on any package: what a verdict says of the recorded ranges and of the
-- counter of errors.
use decs.Malloc.Ranges.Removal.{remove_range-All}
use decs.Base.{
  ℕ, ◌+◌, ◌%◌, ◌≤◌, ◌<◌, ◌≡◌, refl, inl, inr, arith, All, All-mono, Bool-cases, ◌∙◌, ◌==◌, List,
  ◌∷◌, [],
}
use decs.Base.Int.{ℤ, pos, negsuc, ltb_ℤ}
use decs.Malloc.Memlib.{Mem, mem_reset_brk}
use decs.Malloc.Memlib.Bounds.{IsMem, Grows, mem_reset_brk-IsMem}
use decs.Malloc.Package.{Machine, Package}
use decs.Malloc.Ranges.{Range, Added, accepted, refused, add_range, clear_ranges}
use decs.Malloc.Ranges.Checks.{add_range-Passes}
use decs.Malloc.Driver.{
  World, Outcome, going, failed, aborted, ◌>>=◌, malloc_error, record_range, check_range, remember,
  preserved, kept_size, check_data, eval_alloc, eval_realloc, eval_free, eval_op, eval_ops,
  start_run, eval_mm_valid, to_size_t, TraceOp, clear_ranges, remove_range, alloc, realloc, free,
  dispatch, OpType,
}

-- A call leaves the heap well formed and does not shrink it.
abbrev pub KeepsHeap : Machine → Machine → Type 0
KeepsHeap h h' = IsMem h.mem → IsMem h'.mem × Grows h.mem h'.mem

-- What a package owes to memlib.c: it changes the memory system by `mem_sbrk` alone.
pub record Honest (pk : Package) : Type 0 where
  pub init_keeps : (h : Machine) → KeepsHeap h (pk.init h).1
  pub malloc_keeps : (size : ℕ) (h : Machine) → KeepsHeap h (pk.malloc size h).1
  pub free_keeps : (p : ℕ) (h : Machine) → KeepsHeap h (pk.free p h)
  pub realloc_keeps : (p size : ℕ) (h : Machine) → KeepsHeap h (pk.realloc p size h).1

-- A recorded payload is aligned to 8 and lies within the heap.
abbrev pub InHeap : Mem → Range → Type 0
InHeap m p = (p.lo % 8 ≡ 0) × (m.start_brk ≤ p.lo) × (p.lo ≤ p.hi) × (p.hi < m.brk)

pub record IsWorld (w : World) : Type 0 where
  pub mem : IsMem w.machine.mem
  pub payloads : All (InHeap w.machine.mem) w.ranges

-- What an outcome says, from a run that began with `errors` errors.
abbrev pub Sound : ℕ → Outcome → Type 0
Sound errors (going w) = IsWorld w × (w.errors ≡ errors)
Sound errors (failed w) = w.errors ≡ errors + 1
Sound errors aborted = Unit

Sound-bind :
    (e : ℕ) (r : Outcome) (f : World → Outcome)
    → Sound e r
    → ((w : World) → IsWorld w → w.errors ≡ e → Sound e (f w))
    → Sound e (r >>= f)
Sound-bind e (going w) f s next = next w s.0 s.1
Sound-bind e (failed w) f s next = s
Sound-bind e aborted f s next = tt

InHeap-Grows : {m m' : Mem} → Grows m m' → (p : Range) → InHeap m p → InHeap m' p
InHeap-Grows g p h = omega arith

-- A step of the machine that keeps the heap.
IsWorld-machine :
    {w : World} {h : Machine}
    → IsWorld w
    → KeepsHeap w.machine h
    → IsWorld (record w { machine = h })
IsWorld-machine {w} v k = record {
  mem = (k v.mem).0;
  payloads = All-mono w.ranges (InHeap-Grows (k v.mem).1) v.payloads;
}

record_range-Sound :
    (lo n : ℕ) {w : World} → IsWorld w → 0 < n → Sound w.errors (record_range lo n w)
unfolding record_range malloc_error
record_range-Sound lo n {w} v positive = go (add_range w.ranges lo n w.machine.mem) refl
  where
    go :
        (a : Added)
        → add_range w.ranges lo n w.machine.mem ≡ a
        → Sound w.errors
            (elim a [ accepted rs ↦ going (record w { ranges = rs }) | refused ↦ malloc_error w ])
    go (accepted rs) e =
        let (p, is) = add_range-Passes w.ranges lo n v.mem positive e in
        (
          record {
            mem = v.mem;
            payloads =
                rw is
                  ((p.aligned, p.from, omega (arith, p.upto), omega (arith, p.upto)), v.payloads);
          },
          refl,
        )
    go refused e = refl

pub check_range-Sound :
    (lo : ℕ) (size : ℤ) {w : World} → IsWorld w → Sound w.errors (check_range lo size w)
unfolding check_range
check_range-Sound lo (negsuc n) v = tt
check_range-Sound lo (pos n) v = elim (Bool-cases (n == 0)) [
  | inl empty ↦ rw empty tt
  | inr filled ↦ rw filled (record_range-Sound lo n v (ground arith))
]

remember-IsWorld :
    (index p : ℕ) (size : ℤ) {w : World} → IsWorld w → IsWorld (remember index p size w)
unfolding remember
remember-IsWorld index p size v = record { mem = v.mem; payloads = v.payloads }

check_data-Sound :
    (index newp : ℕ) (size : ℤ) {w : World}
    → IsWorld w
    → Sound w.errors (check_data index newp size w)
unfolding check_data malloc_error
check_data-Sound index newp size {w} v =
    elim (Bool-cases
      (preserved w.machine.bytes newp (index % 256) (kept_size size (w.block_sizes index)))) [
        | inl same ↦ rw same (remember-IsWorld index newp size v, errors_same)
        | inr differ ↦ rw differ refl
      ]
  where
    errors_same : (remember index newp size w).errors ≡ w.errors
    errors_same = unfold remember in refl

-- The counter is read in the new state of the machine.
Sound-malloc_error : (w : World) → Sound w.errors (malloc_error w)
unfolding malloc_error
Sound-malloc_error w = refl

Sound-of_eq : (r : Outcome) {e e' : ℕ} → e ≡ e' → Sound e r → Sound e' r
Sound-of_eq (going w) q s = (s.0, s.1 ∙ q)
Sound-of_eq (failed w) q s = omega arith
Sound-of_eq aborted q s = tt

module _ {pk : Package} (honest : Honest pk) where
  eval_alloc-Sound :
      (index : ℕ) (size : ℤ) {w : World} → IsWorld w → Sound w.errors (eval_alloc pk index size w)
  unfolding eval_alloc remember
  eval_alloc-Sound index size {w} v =
      let (p, h) = pk.malloc (to_size_t size) w.machine in
      let w' : World = record w { machine = h } in
      let v' : IsWorld w' = IsWorld-machine v (honest.malloc_keeps (to_size_t size) w.machine) in
      elim (Bool-cases (p == 0)) [
        | inl null ↦ rw null (Sound-malloc_error w')
        | inr filled ↦ rw filled (
            Sound-bind w.errors (check_range p size w') (λ u. going (remember index p size u))
              (check_range-Sound p size v') (λ u vu same. (remember-IsWorld index p size vu, same)))
      ]

  eval_realloc-Sound :
      (index : ℕ) (size : ℤ) {w : World} → IsWorld w → Sound w.errors (eval_realloc pk index size w)
  unfolding eval_realloc
  eval_realloc-Sound index size {w} v =
      let (newp, h) = pk.realloc (w.blocks index) (to_size_t size) w.machine in
      let w' : World = record w { machine = h } in
      let v' : IsWorld w' =
        IsWorld-machine v (honest.realloc_keeps (w.blocks index) (to_size_t size) w.machine) in
      let u : World = record w' { ranges = remove_range w.ranges (w.blocks index) } in
      let vu : IsWorld u = record {
        mem = v'.mem;
        payloads = remove_range-All _ w.ranges (w.blocks index) v'.payloads;
      } in
      elim (Bool-cases (newp == 0)) [
        | inl null ↦ rw null (Sound-malloc_error w')
        | inr filled ↦ rw filled (
            Sound-bind w.errors (check_range newp size u) (check_data index newp size)
              (check_range-Sound newp size vu)
              (λ x vx same. Sound-of_eq _ same (check_data-Sound index newp size vx)))
      ]

  eval_free-Sound : (index : ℕ) {w : World} → IsWorld w → Sound w.errors (eval_free pk index w)
  unfolding eval_free
  eval_free-Sound index {w} v =
      let h : Machine = pk.free (w.blocks index) w.machine in
      let v' : IsWorld (record w { machine = h }) =
        IsWorld-machine v (honest.free_keeps (w.blocks index) w.machine) in
      (
        record {
          mem = v'.mem;
          payloads = remove_range-All _ w.ranges (w.blocks index) v'.payloads;
        },
        refl,
      )

  dispatch-Sound :
      (type : OpType) (index : ℕ) (size : ℤ) {w : World}
      → IsWorld w
      → Sound w.errors (dispatch pk type index size w)
  unfolding dispatch
  dispatch-Sound alloc index size v = eval_alloc-Sound index size v
  dispatch-Sound realloc index size v = eval_realloc-Sound index size v
  dispatch-Sound free index size v = eval_free-Sound index v

  eval_op-Sound : (op : TraceOp) {w : World} → IsWorld w → Sound w.errors (eval_op pk op w)
  unfolding eval_op
  eval_op-Sound op v = dispatch-Sound op.type op.index op.size v

  pub eval_ops-Sound :
      (ops : List TraceOp) {w : World} → IsWorld w → Sound w.errors (eval_ops pk ops w)
  unfolding eval_ops
  eval_ops-Sound [] v = (v, refl)
  eval_ops-Sound (op ∷ ops) {w} v =
      Sound-bind w.errors (eval_op pk op w) (eval_ops pk ops) (eval_op-Sound op v)
        (λ u vu same. Sound-of_eq _ same (eval_ops-Sound ops vu))

  start_run-Sound : (w : World) → IsMem w.machine.mem → Sound w.errors (start_run pk w)
  unfolding start_run clear_ranges
  start_run-Sound w v =
      let h : Machine = record (w.machine) { mem = mem_reset_brk w.machine.mem } in
      let (kept, grown) = honest.init_keeps h (mem_reset_brk-IsMem v) in
      elim (Bool-cases (ltb_ℤ (pk.init h).0 (pos 0))) [
        | inl bad ↦ rw bad (Sound-malloc_error (record w { machine = (pk.init h).1; ranges = [] }))
        | inr good ↦ rw good (record { mem = kept; payloads = tt }, refl)
      ]

  -- For a package that changes the memory system by `mem_sbrk` alone, a run of `eval_mm_valid` that
  -- returns 1 leaves the counter of errors alone and records only payloads that are aligned to 8
  -- and lie within the heap, on a heap that is well formed; a run that returns 0 adds exactly one
  -- error.
  pub eval_mm_valid-Sound :
      (ops : List TraceOp) (w : World)
      → IsMem w.machine.mem
      → Sound w.errors (eval_mm_valid pk ops w)
  unfolding eval_mm_valid
  eval_mm_valid-Sound ops w v =
      Sound-bind w.errors (start_run pk w) (eval_ops pk ops) (start_run-Sound w v)
        (λ u vu same. Sound-of_eq _ same (eval_ops-Sound ops vu))
