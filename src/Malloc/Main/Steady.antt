-- ===== src/Malloc/Main/Steady.antt =====
-- mdriver.c: the evaluations of space and speed add no errors, for any package.
use mathlib.Core.Path.{subst}
use decs.Base.Words.{to_size_t}
use decs.Base.{ℕ, refl, Option, Bool-cases, List, ◌≡◌, none, some, inl, ◌==◌, ◌∷◌, inr, []}
use decs.Base.Int.{pos, ltb_ℤ, ℤ}
use decs.Malloc.Driver.{World, TraceOp, OpType, alloc, realloc, free}
use decs.Malloc.Memlib.{mem_reset_brk}
use decs.Malloc.Package.{Package}
use decs.Malloc.Util.{
  Usage, util_op, util_ops, restart, run_util, util_alloc, util_realloc, util_free, grow, no_usage,
}
use decs.Malloc.Speed.{speed_op, speed_ops, eval_mm_speed}

-- The errors that a run has added to `e`: none
abbrev pub Keeps : ℕ → Option World → Type 0
Keeps e none = Unit
Keeps e (some w) = w.errors ≡ e

abbrev pub UsageKeeps : ℕ → Option Usage → Type 0
UsageKeeps e none = Unit
UsageKeeps e (some u) = u.world.errors ≡ e

restart-Keeps : (pk : Package) (w : World) → Keeps w.errors (restart pk w)
unfolding restart
restart-Keeps pk w =
    let (status, m) = pk.init (record (w.machine) { mem = mem_reset_brk w.machine.mem }) in
    elim (Bool-cases (ltb_ℤ status (pos 0))) [ inl fails ↦ rw fails tt | inr works ↦ rw works refl ]

util_op-UsageKeeps :
    (pk : Package) (type : OpType) (index : ℕ) (size : ℤ) (u : Usage)
    → UsageKeeps u.world.errors (util_op pk type index size u)
unfolding util_op util_alloc util_realloc util_free grow
util_op-UsageKeeps pk alloc index size u =
    elim (Bool-cases ((pk.malloc (to_size_t size) u.world.machine).0 == 0)) [
      | inl null ↦ rw null tt
      | inr found ↦ rw found refl
    ]
util_op-UsageKeeps pk realloc index size u =
    elim (Bool-cases
      ((pk.realloc (u.world.blocks index) (to_size_t size) u.world.machine).0 == 0)) [
        | inl null ↦ rw null tt
        | inr found ↦ rw found refl
      ]
util_op-UsageKeeps pk free index size u = refl

UsageKeeps-then :
    (pk : Package) (ops : List TraceOp) (e : ℕ) (r : Option Usage)
    → UsageKeeps e r
    → ((u : Usage) → u.world.errors ≡ e → UsageKeeps e (util_ops pk ops u))
    → UsageKeeps e (elim r [ none ↦ none | some v ↦ util_ops pk ops v ])
UsageKeeps-then pk ops e none h next = tt
UsageKeeps-then pk ops e (some u) h next = next u h

util_ops-UsageKeeps :
    (pk : Package) (ops : List TraceOp) (u : Usage) (e : ℕ)
    → u.world.errors ≡ e
    → UsageKeeps e (util_ops pk ops u)
unfolding util_ops
util_ops-UsageKeeps pk [] u e h = h
util_ops-UsageKeeps pk (op ∷ ops) u e h =
    UsageKeeps-then pk ops e (util_op pk op.type op.index op.size u)
      (subst (λ k. UsageKeeps k (util_op pk op.type op.index op.size u)) h
        (util_op-UsageKeeps pk op.type op.index op.size u))
      (λ v k. util_ops-UsageKeeps pk ops v e k)

pub run_util-UsageKeeps :
    (pk : Package) (ops : List TraceOp) (w : World) → UsageKeeps w.errors (run_util pk ops w)
unfolding run_util
run_util-UsageKeeps pk ops w = go (restart pk w) (restart-Keeps pk w)
  where
    go :
        (r : Option World)
        → Keeps w.errors r
        → UsageKeeps w.errors (elim r [ none ↦ none | some v ↦ util_ops pk ops (no_usage v) ])
    go none k = tt
    go (some v) k = util_ops-UsageKeeps pk ops (no_usage v) w.errors k

speed_op-Keeps :
    (pk : Package) (type : OpType) (index : ℕ) (size : ℤ) (w : World)
    → Keeps w.errors (speed_op pk type index size w)
unfolding speed_op
speed_op-Keeps pk alloc index size w =
    elim (Bool-cases ((pk.malloc (to_size_t size) w.machine).0 == 0)) [
      | inl null ↦ rw null tt
      | inr found ↦ rw found refl
    ]
speed_op-Keeps pk realloc index size w =
    elim (Bool-cases ((pk.realloc (w.blocks index) (to_size_t size) w.machine).0 == 0)) [
      | inl null ↦ rw null tt
      | inr found ↦ rw found refl
    ]
speed_op-Keeps pk free index size w = refl

Keeps-then :
    (pk : Package) (ops : List TraceOp) (e : ℕ) (r : Option World)
    → Keeps e r
    → ((w : World) → w.errors ≡ e → Keeps e (speed_ops pk ops w))
    → Keeps e (elim r [ none ↦ none | some v ↦ speed_ops pk ops v ])
Keeps-then pk ops e none h next = tt
Keeps-then pk ops e (some w) h next = next w h

speed_ops-Keeps :
    (pk : Package) (ops : List TraceOp) (w : World) (e : ℕ)
    → w.errors ≡ e
    → Keeps e (speed_ops pk ops w)
unfolding speed_ops
speed_ops-Keeps pk [] w e h = h
speed_ops-Keeps pk (op ∷ ops) w e h =
    Keeps-then pk ops e (speed_op pk op.type op.index op.size w)
      (subst (λ k. Keeps k (speed_op pk op.type op.index op.size w)) h
        (speed_op-Keeps pk op.type op.index op.size w))
      (λ v k. speed_ops-Keeps pk ops v e k)

pub eval_mm_speed-Keeps :
    (pk : Package) (ops : List TraceOp) (w : World) → Keeps w.errors (eval_mm_speed pk ops w)
unfolding eval_mm_speed
eval_mm_speed-Keeps pk ops w =
    Keeps-then pk ops w.errors (restart pk w) (restart-Keeps pk w)
      (λ v k. speed_ops-Keeps pk ops v w.errors k)
