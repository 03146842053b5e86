-- ===== src/Malloc/Speed/Agreement.antt =====
-- mdriver.c: the timed runs make the calls of the checked runs.
use decs.Malloc.Memlib.{mem_reset_brk}
use decs.Base.Int.{ℤ}
use decs.Malloc.Package.{Package}
use decs.Malloc.Util.{Usage, util_op, util_ops, run_util, grow, restart, no_usage}
use decs.Malloc.Speed.{
  speed_op, speed_ops, eval_mm_speed, Allocator, eval_libc_valid, eval_libc_speed, LibcRun, exited,
  went_on, LibcOutcome, libc_valid_op, libc_speed_op,
}
use decs.Malloc.Driver.{World, OpType, TraceOp, alloc, realloc, free}
use mathlib.Core.Option
use decs.Base.{ℕ, refl, List, ◌≡◌, arith, ◌∷◌, Option-cases, ◌+◌, inl, inr, []}

-- The machine and the blocks of a run of `eval_mm_util`, with the rest of the world as it was.
abbrev pub timed : World → Usage → World
timed w u = record w { machine = u.world.machine; blocks = u.world.blocks }

speed_op-util_op :
    (pk : Package) (type : OpType) (index : ℕ) (size : ℤ) (w : World) (u : Usage)
    → speed_op pk type index size (timed w u) ≡ Option.map (timed w) (util_op pk type index size u)
unfolding speed_op util_op grow
speed_op-util_op pk alloc index size w u = ground arith
speed_op-util_op pk realloc index size w u = ground arith
speed_op-util_op pk free index size w u = ground arith

speed_ops-util_ops :
    (pk : Package) (ops : List TraceOp) (w : World) (u : Usage)
    → speed_ops pk ops (timed w u) ≡ Option.map (timed w) (util_ops pk ops u)
unfolding speed_ops util_ops
speed_ops-util_ops pk [] w u = refl
speed_ops-util_ops pk (op ∷ ops) w u = elim (Option-cases (util_op pk op.type op.index op.size u)) [
  | inl stop ↦ ground (arith, speed_op-util_op pk op.type op.index op.size w u)
  | inr (v, next) ↦
      ground
        (arith, speed_op-util_op pk op.type op.index op.size w u, speed_ops-util_ops pk ops w v)
]

-- For every package and trace, the timed run `eval_mm_speed` ends exactly when the run of
-- `eval_mm_util` does, and leaves the same machine and the same table of blocks.
pub eval_mm_speed-run_util :
    (pk : Package) (ops : List TraceOp) (w : World)
    → eval_mm_speed pk ops w ≡ Option.map (timed w) (run_util pk ops w)
unfolding eval_mm_speed run_util restart
eval_mm_speed-run_util pk ops w =
    let (status, h) = pk.init (record (w.machine) { mem = mem_reset_brk w.machine.mem }) in
    ground (arith, speed_ops-util_ops pk ops w (no_usage (record w { machine = h })))

module _ {M : Type 0} (libc : Allocator M) where
  -- the outcome of the checked run, from that of the timed run
  abbrev pub counted : LibcOutcome M → LibcOutcome M
  counted (exited e) = exited (e + 1)
  counted (went_on v) = went_on v

  libc_op-counted :
      (type : OpType) (index : ℕ) (size : ℤ) (r : LibcRun M)
      → libc_valid_op libc type index size r ≡ counted (libc_speed_op libc type index size r)
  unfolding libc_valid_op libc_speed_op
  libc_op-counted alloc index size r = ground arith
  libc_op-counted realloc index size r = ground arith
  libc_op-counted free index size r = ground arith

  -- The timed run of the C library's allocator makes the calls of the checked run, with the same
  -- result; where a call fails, the checked run has counted exactly one error more.
  pub eval_libc_valid-speed :
      (ops : List TraceOp) (r : LibcRun M)
      → eval_libc_valid libc ops r ≡ counted (eval_libc_speed libc ops r)
  unfolding eval_libc_valid eval_libc_speed
  eval_libc_valid-speed [] r = refl
  eval_libc_valid-speed (op ∷ ops) r =
      rw (libc_op-counted op.type op.index op.size r, eval_libc_valid)
        (elim (libc_speed_op libc op.type op.index op.size r)
          as (λ o.
            (elim (counted o) [ exited e ↦ exited e | went_on v ↦ eval_libc_valid libc ops v ])
            ≡ counted (elim o [ exited e ↦ exited e | went_on v ↦ eval_libc_speed libc ops v ])) [
              | exited e ↦ refl
              | went_on v ↦ eval_libc_valid-speed ops v
            ])
