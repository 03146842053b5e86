-- ===== src/Wrappers.antt =====
-- assignment-2/PA2_2020/3_race/cs_thread.h (2_barrier/cs_thread.h has the same statements): the locks and
-- condition variables with their checks, as one thread calls them.
pub mod Checks
mod Tests
use decs.Base.{ℕ, Bool, Option, some, none, true, false, if◌then◌else◌, ◌==◌}

-- `LOCK_COND_INIT_MAGIC`
abbrev pub lock_cond_init_magic : ℕ
lock_cond_init_magic = 1245367700

-- `mutex` is whether it is held, `none` before `pthread_mutex_init`.
pub record Lock : Type 0 where
  pub init : ℕ
  pub mutex : Option Bool

-- `cond` is whether there has been a `pthread_cond_init`.
pub record Condition : Type 0 where
  pub init : ℕ
  pub cond : Bool

-- What a call comes to: it returns, it waits for the mutex or, with the mutex given back, for a signal,
-- it ends the process in `__assert`, or it uses a variable that is not set up.
pub data Call (A : Type 0) : Type 0 where
  returns : A → Call A
  blocks : Call A
  waits : A → Call A
  fatal : Call A
  undefined : Call A

infixl 5 ◌>>=◌
abbrev pub ◌>>=◌ : {A B : Type 0} → Call A → (A → Call B) → Call B
returns a >>= f = f a
blocks >>= f = blocks
waits a >>= f = f a
fatal >>= f = fatal
undefined >>= f = undefined

-- `__assert`
unfoldable pub assert_that : Bool → Call Unit
assert_that satisfied = if satisfied then returns tt else fatal

-- `pthread_mutex_trylock`: whether it has failed, and the mutex
unfoldable pub trylock : Option Bool → Call (Bool × Option Bool)
trylock none = undefined
trylock (some true) = returns (true, some true)
trylock (some false) = returns (false, some true)

-- `pthread_mutex_lock`
unfoldable pub mutex_lock : Option Bool → Call (Option Bool)
mutex_lock none = undefined
mutex_lock (some true) = blocks
mutex_lock (some false) = returns (some true)

unfoldable pub lock_init : Lock → Lock
lock_init l = record { init = lock_cond_init_magic; mutex = some false }

unfoldable pub cond_init : Condition → Condition
cond_init c = record { init = lock_cond_init_magic; cond = true }

unfoldable pub lock_acquire : Lock → Call Lock
unfolding assert_that mutex_lock
lock_acquire l = do
  _ ← assert_that (l.init == lock_cond_init_magic)
  m ← mutex_lock l.mutex
  returns (record l { mutex = m })

unfoldable pub lock_release : Lock → Call Lock
unfolding assert_that trylock
lock_release l = do
  _ ← assert_that (l.init == lock_cond_init_magic)
  m ← trylock l.mutex
  _ ← assert_that m.0
  returns (record l { mutex = some false })

-- The checks of the three operations on a condition variable
unfoldable pub check_held : Condition → Lock → Call Lock
unfolding assert_that trylock
check_held c l = do
  m ← trylock l.mutex
  _ ← assert_that m.0
  _ ← assert_that (c.init == lock_cond_init_magic)
  _ ← assert_that (l.init == lock_cond_init_magic)
  returns (record l { mutex = m.1 })

unfoldable pub set_up : Condition → Lock → Call Lock
set_up c l = if c.cond then returns l else undefined

-- `pthread_cond_wait` gives the mutex back; it returns when it has been signalled and has the mutex.
unfoldable pub cond_wait : Condition → Lock → Call Lock
unfolding check_held set_up
cond_wait c l = do
  held ← check_held c l
  l' ← set_up c held
  waits (record l' { mutex = some false })

unfoldable pub cond_signal : Condition → Lock → Call Lock
unfolding check_held set_up
cond_signal c l = check_held c l >>= set_up c

unfoldable pub cond_broadcast : Condition → Lock → Call Lock
unfolding check_held set_up
cond_broadcast c l = check_held c l >>= set_up c
