-- ===== src/Malloc/Driver.antt =====
-- assignment-3/PA_3_handout/mdriver.c: `eval_mm_valid`, which runs a trace of requests on a
-- package and checks each block that the package returns. Messages are left out; each of them is
-- counted in `errors`, as `malloc_error` does.
pub mod Verdict
pub mod Naive
pub mod Realloc
use decs.Base.{
  ℕ, zero, suc, ◌+◌, ◌%◌, Bool, true, false, List, [], ◌∷◌, ◌&&◌, leb, ltb, ◌==◌, if◌then◌else◌,
}
use decs.Base.Int.{ℤ, pos, negsuc, pos_part, ltb_ℤ}
use decs.Base.Words.{to_size_t, to_int, char_value}
use decs.Malloc.Memlib.{mem_reset_brk}
use decs.Malloc.Package.{Machine, Package}
use decs.Malloc.Ranges.{Range, accepted, refused, add_range, remove_range, clear_ranges}

pub data OpType : Type 0 where
  alloc free realloc : OpType

-- `traceop_t`
pub record TraceOp : Type 0 where
  pub type : OpType
  pub index : ℕ
  pub size : ℤ

-- What a run changes: the machine, the range list, the counter of errors, and the arrays `blocks`
-- and `block_sizes` of the trace, by index.
pub record World : Type 0 where
  pub machine : Machine
  pub ranges : List Range
  pub errors : ℕ
  pub blocks : ℕ → ℕ
  pub block_sizes : ℕ → ℕ

-- The run goes on, or it has returned 0, or the process has ended in `assert` or `exit`.
pub data Outcome : Type 0 where
  going : World → Outcome
  failed : World → Outcome
  aborted : Outcome

infixl 5 ◌>>=◌
abbrev pub ◌>>=◌ : Outcome → (World → Outcome) → Outcome
going w >>= f = f w
failed w >>= f = failed w
aborted >>= f = aborted

-- `malloc_error`, and the return of 0 that follows it
unfoldable pub malloc_error : World → Outcome
malloc_error w = failed (record w { errors = w.errors + 1 })

unfoldable pub record_range : ℕ → ℕ → World → Outcome
unfolding malloc_error
record_range lo n w = elim (add_range w.ranges lo n w.machine.mem) [
  | accepted rs ↦ going (record w { ranges = rs })
  | refused ↦ malloc_error w
]

-- The call of `add_range` for an `int size`, with its assertion.
unfoldable pub check_range : ℕ → ℤ → World → Outcome
unfolding record_range
check_range lo (negsuc n) w = aborted
check_range lo (pos n) w = if n == 0 then aborted else record_range lo n w

-- `memset`
abbrev pub memset : ℕ → ℕ → ℕ → (ℕ → ℕ) → ℕ → ℕ
memset p v n bytes a = if leb p a && ltb a (p + n) then v else bytes a

abbrev pub update : (ℕ → ℕ) → ℕ → ℕ → ℕ → ℕ
update f i v j = if i == j then v else f j

-- The end of the cases ALLOC and REALLOC: fill the block, and remember it.
unfoldable pub remember : ℕ → ℕ → ℤ → World → World
remember index p size w = record w {
  machine = record (w.machine) { bytes = memset p (index % 256) (to_size_t size) w.machine.bytes };
  blocks = update w.blocks index p;
  block_sizes = update w.block_sizes index (to_size_t size);
}

-- The loop over the bytes of a moved block: `newp[j] != (index & 0xFF)` compares a `char`.
unfoldable pub preserved : (ℕ → ℕ) → ℕ → ℕ → ℕ → Bool
preserved bytes p v zero = true
preserved bytes p v (suc n) =
    elim (char_value (bytes p)) [ pos b ↦ b == v | negsuc b ↦ false ] && preserved bytes (p + 1) v n

-- `if (size < oldsize) oldsize = size`; a negative bound gives no round of the loop.
unfoldable pub kept_size : ℤ → ℕ → ℕ
kept_size size old =
    let oldsize = to_int old in pos_part (if ltb_ℤ size oldsize then size else oldsize)

unfoldable pub eval_alloc : Package → ℕ → ℤ → World → Outcome
unfolding check_range malloc_error remember
eval_alloc pk index size w =
    let (p, h) = pk.malloc (to_size_t size) w.machine in
    let w' = record w { machine = h } in
    if p == 0
    then malloc_error w'
    else check_range p size w' >>= λ v. going (remember index p size v)

-- the loop over the moved bytes, and what follows it
unfoldable pub check_data : ℕ → ℕ → ℤ → World → Outcome
unfolding malloc_error remember preserved kept_size
check_data index newp size w =
    if preserved w.machine.bytes newp (index % 256) (kept_size size (w.block_sizes index))
    then going (remember index newp size w)
    else malloc_error w

unfoldable pub eval_realloc : Package → ℕ → ℤ → World → Outcome
unfolding check_range malloc_error check_data
eval_realloc pk index size w =
    let oldp = w.blocks index in
    let (newp, h) = pk.realloc oldp (to_size_t size) w.machine in
    let w' = record w { machine = h } in
    if newp == 0
    then malloc_error w'
    else check_range newp size (record w' { ranges = remove_range w'.ranges oldp })
      >>= check_data index newp size

unfoldable pub eval_free : Package → ℕ → World → Outcome
unfolding remove_range
eval_free pk index w =
    let p = w.blocks index in
    going (record w { ranges = remove_range w.ranges p; machine = pk.free p w.machine })

-- the `switch` on the type of the request
unfoldable pub dispatch : Package → OpType → ℕ → ℤ → World → Outcome
unfolding eval_alloc eval_realloc eval_free
dispatch pk alloc index size w = eval_alloc pk index size w
dispatch pk realloc index size w = eval_realloc pk index size w
dispatch pk free index size w = eval_free pk index w

unfoldable pub eval_op : Package → TraceOp → World → Outcome
unfolding dispatch
eval_op pk op w = dispatch pk op.type op.index op.size w

unfoldable pub eval_ops : Package → List TraceOp → World → Outcome
unfolding eval_op
eval_ops pk [] w = going w
eval_ops pk (op ∷ ops) w = eval_op pk op w >>= eval_ops pk ops

-- `mem_reset_brk`, `clear_ranges` and `mm_init`
unfoldable pub start_run : Package → World → Outcome
unfolding mem_reset_brk clear_ranges malloc_error
start_run pk w =
    let h = record (w.machine) { mem = mem_reset_brk w.machine.mem } in
    let (status, h') = pk.init h in
    let w' = record w { machine = h'; ranges = clear_ranges w.ranges } in
    if ltb_ℤ status (pos 0) then malloc_error w' else going w'

-- The return of 1 is `going`.
unfoldable pub eval_mm_valid : Package → List TraceOp → World → Outcome
unfolding start_run eval_ops
eval_mm_valid pk ops w = start_run pk w >>= eval_ops pk ops
