-- ===== src/Malloc/Main/Errors.antt =====
-- mdriver.c: what the evaluations add to the counter of errors, for any package.
use decs.Malloc.Memlib.{mem_reset_brk}
use decs.Base.Words.{to_size_t}
use decs.Malloc.Ranges.{Added, add_range, remove_range, clear_ranges, accepted, refused}
use decs.Base.{ℕ, refl, ◌≡◌, Bool-cases, inl, inr, List, ◌∷◌, [], ◌+◌, arith, ◌==◌, ◌%◌}
use decs.Base.Int.{ℤ, pos, negsuc, ltb_ℤ}
use decs.Malloc.Package.{Package}
use decs.Malloc.Driver.{
  World, Outcome, going, failed, aborted, ◌>>=◌, malloc_error, record_range, check_range, remember,
  check_data, eval_alloc, eval_realloc, eval_free, eval_op, eval_ops, start_run, eval_mm_valid,
  TraceOp, alloc, realloc, free, dispatch, OpType, preserved, kept_size,
}

-- A run that goes on has added no error, and one that has failed has added one.
abbrev pub Adds : ℕ → Outcome → Type 0
Adds e (going w) = w.errors ≡ e
Adds e (failed w) = w.errors ≡ e + 1
Adds e aborted = Unit

Adds-bind :
    (e : ℕ) (r : Outcome) (f : World → Outcome)
    → Adds e r
    → ((w : World) → w.errors ≡ e → Adds e (f w))
    → Adds e (r >>= f)
Adds-bind e (going w) f h next = next w h
Adds-bind e (failed w) f h next = h
Adds-bind e aborted f h next = tt

malloc_error-Adds : (w : World) (e : ℕ) → w.errors ≡ e → Adds e (malloc_error w)
unfolding malloc_error
malloc_error-Adds w e h = omega arith

added-Adds :
    (a : Added) (w : World) (e : ℕ)
    → w.errors ≡ e
    → Adds e (elim a [ accepted rs ↦ going (record w { ranges = rs }) | refused ↦ malloc_error w ])
added-Adds (accepted rs) w e h = h
added-Adds refused w e h = malloc_error-Adds w e h

check_range-Adds :
    (lo : ℕ) (size : ℤ) (w : World) (e : ℕ) → w.errors ≡ e → Adds e (check_range lo size w)
unfolding check_range record_range
check_range-Adds lo (negsuc n) w e h = tt
check_range-Adds lo (pos n) w e h = elim (Bool-cases (n == 0)) [
  | inl empty ↦ rw empty tt
  | inr filled ↦ rw filled (added-Adds (add_range w.ranges lo n w.machine.mem) w e h)
]

check_data-Adds :
    (index newp : ℕ) (size : ℤ) (w : World) (e : ℕ)
    → w.errors ≡ e
    → Adds e (check_data index newp size w)
unfolding check_data remember
check_data-Adds index newp size w e h =
    elim (Bool-cases
      (preserved w.machine.bytes newp (index % 256) (kept_size size (w.block_sizes index)))) [
        | inl same ↦ rw same h
        | inr differ ↦ rw differ (malloc_error-Adds w e h)
      ]

eval_alloc-Adds :
    (pk : Package) (index : ℕ) (size : ℤ) (w : World) (e : ℕ)
    → w.errors ≡ e
    → Adds e (eval_alloc pk index size w)
unfolding eval_alloc remember
eval_alloc-Adds pk index size w e h =
    let (p, m) = pk.malloc (to_size_t size) w.machine in
    let v : World = record w { machine = m } in
    elim (Bool-cases (p == 0)) [
      | inl null ↦ rw null (malloc_error-Adds v e h)
      | inr found ↦ rw found (
          Adds-bind e (check_range p size v) (λ x. going (remember index p size x))
            (check_range-Adds p size v e h) (λ x k. k))
    ]

eval_realloc-Adds :
    (pk : Package) (index : ℕ) (size : ℤ) (w : World) (e : ℕ)
    → w.errors ≡ e
    → Adds e (eval_realloc pk index size w)
unfolding eval_realloc
eval_realloc-Adds pk index size w e h =
    let (p, m) = pk.realloc (w.blocks index) (to_size_t size) w.machine in
    let v : World = record w { machine = m } in
    let u : World = record v { ranges = remove_range v.ranges (w.blocks index) } in
    elim (Bool-cases (p == 0)) [
      | inl null ↦ rw null (malloc_error-Adds v e h)
      | inr found ↦ rw found (
          Adds-bind e (check_range p size u) (check_data index p size)
            (check_range-Adds p size u e h) (λ x k. check_data-Adds index p size x e k))
    ]

dispatch-Adds :
    (pk : Package) (type : OpType) (index : ℕ) (size : ℤ) (w : World) (e : ℕ)
    → w.errors ≡ e
    → Adds e (dispatch pk type index size w)
unfolding dispatch eval_free
dispatch-Adds pk alloc index size w e h = eval_alloc-Adds pk index size w e h
dispatch-Adds pk realloc index size w e h = eval_realloc-Adds pk index size w e h
dispatch-Adds pk free index size w e h = h

eval_ops-Adds :
    (pk : Package) (ops : List TraceOp) (w : World) (e : ℕ)
    → w.errors ≡ e
    → Adds e (eval_ops pk ops w)
unfolding eval_ops eval_op
eval_ops-Adds pk [] w e h = h
eval_ops-Adds pk (op ∷ ops) w e h =
    Adds-bind e (eval_op pk op w) (eval_ops pk ops)
      (dispatch-Adds pk op.type op.index op.size w e h) (λ v k. eval_ops-Adds pk ops v e k)

pub eval_mm_valid-Adds :
    (pk : Package) (ops : List TraceOp) (w : World) → Adds w.errors (eval_mm_valid pk ops w)
unfolding eval_mm_valid start_run
eval_mm_valid-Adds pk ops w =
    let (status, m) = pk.init (record (w.machine) { mem = mem_reset_brk w.machine.mem }) in
    let v : World = record w { machine = m; ranges = clear_ranges w.ranges } in
    elim (Bool-cases (ltb_ℤ status (pos 0))) [
      | inl fails ↦ rw fails (malloc_error-Adds v w.errors refl)
      | inr works ↦ rw works (eval_ops-Adds pk ops v w.errors refl)
    ]
