-- ===== src/Counters.antt =====
-- assignment-2/PA2_2020/threads.c (the copy under assignment-2-Final has the same statements): `main`
-- creates `n` threads that increment one counter under a lock, joins them and prints the counter. The
-- threads are interleaved at each access of the lock and of the counter.
pub mod Array
mod Tests
pub mod Total
use decs.Base.Family.{put}
use decs.Base.{ℕ, refl, Bool, false, ◌≡◌, ◌<◌, suc, ◌≤◌, true, ◌+◌}

-- Where a thread stands in `count_incrementor`
pub data Pc : Type 0 where
  absent : Pc  -- not created
  at_lock at_load : Pc
  at_store : ℕ → Pc  -- with the value that it has read
  at_unlock : Pc
  gone : Pc

-- Where `main` stands
pub data Main : Type 0 where
  creating joining printed : ℕ → Main
  failed : Main

pub record System : Type 0 where
  pub counter : ℕ
  pub held : Bool
  pub pc : ℕ → Pc
  pub main : Main

unfoldable pub init : System
init = record { counter = 0; held = false; pc = λ _. absent; main = creating 0 }

-- A step of `main` or of thread `i`, with `n` for `NUMBER_OF_THREADS`
pub data Step (n : ℕ) (s : System) : System → Type 0 where
  create :
      (k : ℕ)
      → s.main ≡ creating k
      → k < n
      → Step n s (record s { pc = put s.pc k at_lock; main = creating (suc k) })
  create_fails : (k : ℕ) → s.main ≡ creating k → k < n → Step n s (record s { main = failed })
  all_created : (k : ℕ) → s.main ≡ creating k → n ≤ k → Step n s (record s { main = joining 0 })
  join :
      (k : ℕ)
      → s.main ≡ joining k
      → k < n
      → s.pc k ≡ gone
      → Step n s (record s { main = joining (suc k) })
  print : (k : ℕ) → s.main ≡ joining k → n ≤ k → Step n s (record s { main = printed s.counter })
  lock :
      (i : ℕ)
      → i < n
      → s.pc i ≡ at_lock
      → s.held ≡ false
      → Step n s (record s { held = true; pc = put s.pc i at_load })
  load :
      (i : ℕ)
      → i < n
      → s.pc i ≡ at_load
      → Step n s (record s { pc = put s.pc i (at_store s.counter) })
  store :
      (i v : ℕ)
      → i < n
      → s.pc i ≡ at_store v
      → Step n s (record s { counter = v + 1; pc = put s.pc i at_unlock })
  unlock :
      (i : ℕ)
      → i < n
      → s.pc i ≡ at_unlock
      → Step n s (record s { held = false; pc = put s.pc i gone })

pub data Reach (n : ℕ) : System → Type 0 where
  start : Reach n init
  step : {s t : System} → Reach n s → Step n s t → Reach n t
