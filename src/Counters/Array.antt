-- ===== src/Counters/Array.antt =====
-- assignment-2/PA2_2020/nlocks.c (the copy under assignment-2-Final has the same statements): ten threads
-- add to an entry of an array each, and `main` to all of them, under one lock for each entry. The
-- threads are interleaved at each access of a lock and of the array.
mod Tests
pub mod Finishing
pub mod Printed
pub mod Total
use decs.Base.Family.{put}
use decs.Base.{ℕ, refl, Bool, false, ◌≡◌, ◌<◌, suc, ◌≤◌, true, ◌+◌, if◌then◌else◌, ltb}

-- Where a thread stands in `array_data_incrementor`, with the number of rounds that it has made
pub data Pc : Type 0 where
  absent : Pc  -- not created
  at_lock at_load : ℕ → Pc
  at_store : ℕ → ℕ → Pc  -- with the value that it has read
  at_unlock : ℕ → Pc
  gone : Pc

-- Where `main` stands: in round `i` at entry `j` in its own additions
pub data Main : Type 0 where
  creating joining : ℕ → Main
  main_lock main_load main_unlock : ℕ → ℕ → Main
  main_store : ℕ → ℕ → ℕ → Main
  printed : Main
  failed : Main

pub record System : Type 0 where
  pub data_at : ℕ → ℕ
  pub held : ℕ → Bool
  pub pc : ℕ → Pc
  pub main : Main

-- `NUMBER_OF_THREADS`, and the rounds of each loop
abbrev pub threads : ℕ
threads = 10

abbrev pub rounds : ℕ
rounds = 1000

unfoldable pub init : System
init = record { data_at = λ _. 0; held = λ _. false; pc = λ _. absent; main = creating 0 }

-- behind the round `k` of a thread
unfoldable pub next_round : ℕ → Pc
next_round k = if ltb (k + 1) rounds then at_lock (k + 1) else gone

-- behind entry `j` of round `i` of `main`
unfoldable pub next_entry : ℕ → ℕ → Main
next_entry i j =
    if ltb (j + 1) threads
    then main_lock i (j + 1)
    else if ltb (i + 1) rounds
    then main_lock (i + 1) 0
    else joining 0

-- A step of thread `j`
pub data ThreadStep (s : System) (j : ℕ) : System → Type 0 where
  lock :
      (k : ℕ)
      → s.pc j ≡ at_lock k
      → s.held j ≡ false
      → ThreadStep s j (record s { held = put s.held j true; pc = put s.pc j (at_load k) })
  load :
      (k : ℕ)
      → s.pc j ≡ at_load k
      → ThreadStep s j (record s { pc = put s.pc j (at_store k (s.data_at j)) })
  store :
      (k v : ℕ)
      → s.pc j ≡ at_store k v
      → ThreadStep s j
          (record s { data_at = put s.data_at j (v + 1); pc = put s.pc j (at_unlock k) })
  unlock :
      (k : ℕ)
      → s.pc j ≡ at_unlock k
      → ThreadStep s j (record s { held = put s.held j false; pc = put s.pc j (next_round k) })

-- A step of `main`
pub data MainStep (s : System) : System → Type 0 where
  create :
      (k : ℕ)
      → s.main ≡ creating k
      → k < threads
      → MainStep s (record s { pc = put s.pc k (at_lock 0); main = creating (suc k) })
  create_fails :
      (k : ℕ) → s.main ≡ creating k → k < threads → MainStep s (record s { main = failed })
  all_created :
      (k : ℕ) → s.main ≡ creating k → threads ≤ k → MainStep s (record s { main = main_lock 0 0 })
  lock_entry :
      (i j : ℕ)
      → s.main ≡ main_lock i j
      → s.held j ≡ false
      → MainStep s (record s { held = put s.held j true; main = main_load i j })
  load_entry :
      (i j : ℕ)
      → s.main ≡ main_load i j
      → MainStep s (record s { main = main_store i j (s.data_at j) })
  store_entry :
      (i j v : ℕ)
      → s.main ≡ main_store i j v
      → MainStep s (record s { data_at = put s.data_at j (v + 1); main = main_unlock i j })
  unlock_entry :
      (i j : ℕ)
      → s.main ≡ main_unlock i j
      → MainStep s (record s { held = put s.held j false; main = next_entry i j })
  join :
      (k : ℕ)
      → s.main ≡ joining k
      → k < threads
      → s.pc k ≡ gone
      → MainStep s (record s { main = joining (suc k) })
  print : (k : ℕ) → s.main ≡ joining k → threads ≤ k → MainStep s (record s { main = printed })

-- What any sequence of steps of `main` and the threads leads to
pub data Reach : System → Type 0 where
  start : Reach init
  thread : {s t : System} (j : ℕ) → Reach s → j < threads → ThreadStep s j t → Reach t
  by_main : {s t : System} → Reach s → MainStep s t → Reach t
