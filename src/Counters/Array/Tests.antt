-- ===== src/Counters/Array/Tests.antt =====
-- nlocks.c: the fourth entry at the end of one run.
use decs.Base.{◌≡◌, arith, ◌+◌}
use decs.Counters.Array.Finishing.{can_print}
use decs.Counters.Array.Printed.{Reach-entries}

Reach-entries_example : can_print.0.data_at 3 ≡ 1000 + 1000
Reach-entries_example = Reach-entries can_print.0 3 can_print.1 can_print.2 (omega arith)
