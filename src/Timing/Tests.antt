-- ===== src/Timing/Tests.antt =====
-- fcyc.c: three of the five runs come close enough.
use decs.Base.{ℕ, refl, ◌≡◌, Bool, false, arith, ◌≤◌, some, suc, leb, ◌<◌, zero, ◌*◌, true, ◌+◌}
use decs.Timing.{Settings, fcyc}
use decs.Timing.Best.{IsBest}
use decs.Timing.Loop.{sampled, sampled-IsBest, fcyc-least, goes_on, least}

-- the cycles of the runs
abbrev five_runs : ℕ → ℕ
five_runs zero = 900
five_runs (suc zero) = 1010
five_runs (suc (suc zero)) = 880
five_runs (suc (suc (suc zero))) = 1300
five_runs (suc (suc (suc (suc i)))) = 885

-- a hundredth, and the test on whole numbers
abbrev hundredth : ℕ → ℕ → ℕ → Bool
hundredth e low high = leb (100 * high) ((100 + e) * low)

abbrev standard : Settings ℕ
standard = record { kbest = 2; maxsamples = 20; epsilon = 1; compensate = false }

sampled-IsBest_example : IsBest 2 5 five_runs (sampled 2 five_runs 5)
sampled-IsBest_example = sampled-IsBest 2 five_runs 5 (omega arith)

five_values : ((sampled 2 five_runs 5).values 0 ≡ 880) × ((sampled 2 five_runs 5).values 1 ≡ 885)
unfolding sampled
five_values = (refl, refl)

fcyc-least_example :
    (m : ℕ) × (m ≤ 19)
    × ((i : ℕ) → i < m → goes_on hundredth standard five_runs (suc i) ≡ true)
    × (goes_on hundredth standard five_runs (suc m) ≡ false)
    × (fcyc hundredth standard five_runs five_runs ≡ some (least m five_runs))
fcyc-least_example = fcyc-least hundredth standard five_runs five_runs (omega arith)

five_runs_result : fcyc hundredth standard five_runs five_runs ≡ some 880
unfolding fcyc
five_runs_result = refl
