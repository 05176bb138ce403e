-- ===== src/Sync/Mutex/System.antt =====
-- Any number of threads at one mutex: each step is one access of `state_` with the private work
-- around it, by a thread that is where the code has it.
use aimrt_comm.Base.{ℕ, ◌≡◌, Bool, true, false, none, some, ◌==◌, if◌then◌else◌}
use aimrt_comm.Sync.Mutex.{
  Word, unlocked, locked, queued, Mutex, try_lock, lock_and_suspend, failed_round, pop_awaiter,
  take_queue,
}

-- outside, suspended in the queue, holding the lock, or in `Unlock` with a value of `state_` loaded
pub data Pc : Type 0 where
  outside waiting holding saw_null saw_queue : Pc

abbrev pub Pcs : Type 0
Pcs = ℕ → Pc

abbrev pub move : Pcs → ℕ → Pc → Pcs
move pc a v j = if a == j then v else pc j

pub record State : Type 0 where
  pub mutex : Mutex
  pub pc : Pcs

abbrev pub is_locked : Word → Bool
is_locked unlocked = false
is_locked locked = true
is_locked (queued b) = true

pub data Step (s : State) : State → Type 0 where
  -- `TryLock` wins
  try_wins :
      (a : ℕ)
      → s.pc a ≡ outside
      → s.mutex.word ≡ unlocked
      → Step s (record { mutex = (try_lock s.mutex).1; pc = move s.pc a holding })
  -- `LockAndSuspend` finds the mutex unlocked, or queues the awaiter, or has to try again
  lock_wins :
      (a : ℕ)
      → s.pc a ≡ outside
      → s.mutex.word ≡ unlocked
      → Step s (record { mutex = (lock_and_suspend a s.mutex).1; pc = move s.pc a holding })
  suspend :
      (a : ℕ)
      → s.pc a ≡ outside
      → is_locked s.mutex.word ≡ true
      → Step s (record { mutex = (lock_and_suspend a s.mutex).1; pc = move s.pc a waiting })
  retry :
      (a : ℕ) (old : Word)
      → s.pc a ≡ outside
      → Step s (record { mutex = failed_round a old s.mutex; pc = s.pc })
  -- `Unlock` resumes the first awaiter of its own list
  pop :
      (b a : ℕ)
      → s.pc b ≡ holding
      → s.mutex.awaiter ≡ some a
      → Step s
          (record { mutex = (pop_awaiter a s.mutex).1; pc = move (move s.pc b outside) a holding })
  -- `Unlock` loads `state_`
  load_null :
      (b : ℕ)
      → s.pc b ≡ holding
      → s.mutex.awaiter ≡ none
      → s.mutex.word ≡ locked
      → Step s (record { mutex = s.mutex; pc = move s.pc b saw_null })
  load_queue :
      (b q : ℕ)
      → s.pc b ≡ holding
      → s.mutex.awaiter ≡ none
      → s.mutex.word ≡ queued q
      → Step s (record { mutex = s.mutex; pc = move s.pc b saw_queue })
  -- the compare-exchange of `Unlock` wins, or fails
  unlock_wins :
      (b : ℕ)
      → s.pc b ≡ saw_null
      → s.mutex.word ≡ locked
      → Step s (record { mutex = record s.mutex { word = unlocked }; pc = move s.pc b outside })
  unlock_fails :
      (b : ℕ) → s.pc b ≡ saw_null → Step s (record { mutex = s.mutex; pc = move s.pc b holding })
  -- the exchange, and the list turned round
  exchange :
      (b q fuel h : ℕ) (m : Mutex)
      → s.pc b ≡ saw_queue
      → s.mutex.word ≡ queued q
      → take_queue fuel q s.mutex ≡ some (h, m)
      → Step s (record { mutex = m; pc = move (move s.pc b outside) h holding })

-- the states that a mutex starts in and reaches
abbrev pub fresh : State
fresh = record {
  mutex = record { word = unlocked; next = λ _. none; awaiter = none };
  pc = λ _. outside;
}

pub data Reach : State → Type 0 where
  start : Reach fresh
  later : {s t : State} → Reach s → Step s t → Reach t
