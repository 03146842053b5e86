-- ===== src/Wrappers/Tests.antt =====
-- cs_thread.h: a lock as a static variable holds it at first.
use decs.Base.{none, false}
use decs.Wrappers.{Lock, Condition}

abbrev blank : Lock
blank = record { init = 0; mutex = none }

abbrev no_condition : Condition
no_condition = record { init = 0; cond = false }
