-- ===== src/Wrappers/Checks.antt =====
-- cs_thread.h: what its checks catch.
use decs.Base.{◌≡◌, some, true}
use decs.Wrappers.{
  Lock, Condition, returns, blocks, waits, fatal, undefined, lock_acquire, lock_release, lock_init,
  cond_init, cond_wait, cond_signal, cond_broadcast,
}

-- The operations on a lock behind `lock_init`, held or not
abbrev pub Disciplined : Condition → Lock → Type 0
Disciplined c l =
    let free = lock_init l in
    let held : Lock = record free { mutex = some true } in
    (lock_acquire free ≡ returns held)
    × (lock_acquire held ≡ blocks)
    × (lock_release held ≡ returns free)
    × (lock_release free ≡ fatal)
    × (cond_wait (cond_init c) held ≡ waits free)
    × (cond_wait (cond_init c) free ≡ fatal)
    × (cond_signal (cond_init c) held ≡ returns held)
    × (cond_signal (cond_init c) free ≡ fatal)
    × (cond_broadcast (cond_init c) held ≡ returns held)
    × (cond_broadcast (cond_init c) free ≡ fatal)

-- What a forgotten `lock_init` leads to
abbrev pub Unprepared : Condition → Lock → Type 0
Unprepared c l =
    (lock_acquire l ≡ fatal)
    × (lock_release l ≡ fatal)
    × (cond_wait c l ≡ undefined)
    × (cond_signal c l ≡ undefined)
    × (cond_broadcast c l ≡ undefined)
