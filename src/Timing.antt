-- ===== src/Timing.antt =====
-- assignment-3/PA_3_handout/fcyc.c: the K-best scheme.
pub mod Best
pub mod Loop
pub mod Settling
mod Tests
use decs.Base.Family.{put}
use decs.Base.{ℕ, Bool, Option, ltb, leb, if◌then◌else◌, ◌&&◌, none, suc, ◌+◌, ◌-◌, not, zero, some}

-- The static variables that the measurement uses; `E` is the type of `epsilon`, a `double`.
pub record Settings (E : Type 0) : Type 0 where
  pub kbest : ℕ
  pub maxsamples : ℕ
  pub epsilon : E
  pub compensate : Bool

unfoldable pub set_fcyc_compensate : {E : Type 0} → Bool → Settings E → Settings E
set_fcyc_compensate compensate_arg c = record c { compensate = compensate_arg }

unfoldable pub set_fcyc_k : {E : Type 0} → ℕ → Settings E → Settings E
set_fcyc_k k c = record c { kbest = k }

unfoldable pub set_fcyc_maxsamples : {E : Type 0} → ℕ → Settings E → Settings E
set_fcyc_maxsamples maxsamples_arg c = record c { maxsamples = maxsamples_arg }

unfoldable pub set_fcyc_epsilon : {E : Type 0} → E → Settings E → Settings E
set_fcyc_epsilon epsilon_arg c = record c { epsilon = epsilon_arg }

-- `values` and `samplecount`; a sample is a number of cycles.
pub record Sampler : Type 0 where
  pub values : ℕ → ℕ
  pub samplecount : ℕ

unfoldable pub init_sampler : Sampler
init_sampler = record { values = λ _. 0; samplecount = 0 }

-- The insertion sort, from `pos` down
unfoldable pub settle : ℕ → (ℕ → ℕ) → ℕ → ℕ
settle zero values = values
settle (suc pos) values =
    let more = settle pos (put (put values pos (values (suc pos))) (suc pos) (values pos)) in
    if ltb (values (suc pos)) (values pos) then more else values

unfoldable pub add_sample : ℕ → ℕ → Sampler → Sampler
unfolding settle
add_sample kbest val s =
    if ltb s.samplecount kbest
    then record {
      values = settle s.samplecount (put s.values s.samplecount val);
      samplecount = s.samplecount + 1;
    }
    else if ltb val (s.values (kbest - 1))
    then record {
      values = settle (kbest - 1) (put s.values (kbest - 1) val);
      samplecount = s.samplecount + 1;
    }
    else record s { samplecount = s.samplecount + 1 }

unfoldable pub first_value : Option Sampler → Option ℕ
first_value none = none
first_value (some s) = some (s.values 0)

-- `within e low high` is the test `(1 + epsilon) * low >= high` on `double`s.
module _ {E : Type 0} (within : E → ℕ → ℕ → Bool) where
  unfoldable pub has_converged : Settings E → Sampler → Bool
  has_converged c s =
      leb c.kbest s.samplecount && within c.epsilon (s.values 0) (s.values (c.kbest - 1))

  -- The loop over the samples, where `cycles` says what the counter gives for each run; a round takes
  -- one unit of `fuel`.
  unfoldable pub sample_loop : Settings E → (ℕ → ℕ) → ℕ → Sampler → Option Sampler
  unfolding has_converged add_sample
  sample_loop c cycles zero s = none
  sample_loop c cycles (suc fuel) s =
      let t = add_sample c.kbest (cycles s.samplecount) s in
      let rest = sample_loop c cycles fuel t in
      if not (has_converged c t) && ltb t.samplecount c.maxsamples then rest else some t

  -- `fcyc`, with what the two counters give for each run of `f`
  unfoldable pub fcyc : Settings E → (ℕ → ℕ) → (ℕ → ℕ) → Option ℕ
  unfolding sample_loop init_sampler first_value
  fcyc c comp_counter counter = first_value (
      sample_loop c (if c.compensate then comp_counter else counter) (suc c.maxsamples)
        init_sampler)
