-- ===== src/Sync/Barrier.antt =====
-- `sync::Barrier` (src/sync/barrier.{h,cpp}) under any number of threads, each access of `count_`
-- and of the condition a step. `size_t` has 64 bits.
use aimrt_comm.Base.{
  ℕ, suc, ◌+◌, ◌-◌, ◌%◌, ◌^◌, ◌≤◌, ◌<◌, ◌≡◌, ◌≢◌, refl, true, false, ◌⊎◌, inl, inr, arith,
  Bool-cases, some, none,
}
use aimrt_comm.Sync.Condition.{Condition, create, run, wait, init, satisfy}

pub record Barrier : Type 0 where
  pub condition : Condition
  pub thread_nums : ℕ
  pub count : ℕ

unfoldable pub create_barrier : ℕ → Barrier
create_barrier n = record { condition = create false; thread_nums = n; count = n }

-- `Init`
unfoldable pub init_barrier : Barrier → Barrier
unfolding run
init_barrier b = record b { condition = run (init false) b.condition }

-- `--count_`
unfoldable pub decrement : Barrier → Barrier
decrement b = record b { count = (b.count + 2 ^ 64 - 1) % 2 ^ 64 }

unfoldable pub reset_count : Barrier → Barrier
reset_count b = record b { count = b.thread_nums }

unfoldable pub satisfy_condition : Barrier → Barrier
unfolding run
satisfy_condition b = record b { condition = run satisfy b.condition }

-- The barrier with how many threads are where in `Wait`, and how many have come and gone.
pub record State : Type 0 where
  pub barrier : Barrier
  pub waiting : ℕ
  pub resetting : ℕ
  pub satisfying : ℕ
  pub arrived : ℕ
  pub passed : ℕ

pub data Step (s : State) : State → Type 0 where
  arrives :
      (decrement s.barrier).count ≢ 0
      → Step s (record s {
        barrier = decrement s.barrier;
        waiting = s.waiting + 1;
        arrived = s.arrived + 1;
      })
  arrives_last :
      (decrement s.barrier).count ≡ 0
      → Step s (record s {
        barrier = decrement s.barrier;
        resetting = s.resetting + 1;
        arrived = s.arrived + 1;
      })
  resets :
      (k : ℕ)
      → s.resetting ≡ suc k
      → Step s (record s {
        barrier = reset_count s.barrier;
        resetting = k;
        satisfying = s.satisfying + 1;
      })
  satisfies :
      (k : ℕ)
      → s.satisfying ≡ suc k
      → Step s (record s {
        barrier = satisfy_condition s.barrier;
        satisfying = k;
        passed = s.passed + 1;
      })
  -- `condition_.Wait()` returns
  passes :
      (k : ℕ)
      → s.waiting ≡ suc k
      → wait s.barrier.condition ≢ none
      → Step s (record s { waiting = k; passed = s.passed + 1 })

abbrev pub fresh : ℕ → State
fresh n = record {
  barrier = create_barrier n;
  waiting = 0;
  resetting = 0;
  satisfying = 0;
  arrived = 0;
  passed = 0;
}

pub data Reach (n : ℕ) : State → Type 0 where
  start : Reach n (fresh n)
  later : {s t : State} → Reach n s → Step s t → Reach n t

-- Before enough threads have come, none is past the decrement that empties the count.
data Phase (n : ℕ) (s : State) : Type 0 where
  full : n ≤ s.arrived → Phase n s
  filling :
      s.arrived + s.barrier.count ≡ n
      → s.arrived < n
      → s.passed ≡ 0
      → s.resetting ≡ 0
      → s.satisfying ≡ 0
      → s.barrier.condition.value ≡ false
      → s.barrier.condition.failed ≡ false
      → Phase n s

Step-Phase : (n : ℕ) (s t : State) → n < 2 ^ 64 → Step s t → Phase n s → Phase n t
unfolding decrement
Step-Phase n s _ small (arrives more) (full h) = full (omega arith)
Step-Phase n s _ small (arrives more) (filling sum less p r a v f) =
    filling (omega arith) (omega arith) p r a v f
Step-Phase n s _ small (arrives_last last) (full h) = full (omega arith)
Step-Phase n s _ small (arrives_last last) (filling sum less p r a v f) = full (omega arith)
Step-Phase n s _ small (resets k some_k) (full h) = full h
Step-Phase n s _ small (resets k some_k) (filling sum less p r a v f) = absurd (omega arith)
Step-Phase n s _ small (satisfies k some_k) (full h) = full h
Step-Phase n s _ small (satisfies k some_k) (filling sum less p r a v f) = absurd (omega arith)
Step-Phase n s _ small (passes k some_k awake) (full h) = full h
Step-Phase n s _ small (passes k some_k awake) (filling sum less p r a v f) =
    absurd (awake (asleep v f))
  where
    asleep :
        s.barrier.condition.value ≡ false
        → s.barrier.condition.failed ≡ false
        → wait s.barrier.condition ≡ none
    asleep v f = unfold wait in rw (v, f) refl

Reach-Phase : (n : ℕ) (s : State) → 0 < n → n < 2 ^ 64 → Reach n s → Phase n s
unfolding create_barrier
Reach-Phase n _ pos small start = filling (omega arith) pos refl refl refl refl refl
Reach-Phase n _ pos small (later {s = s} {t = t} r st) =
    Step-Phase n s t small st (Reach-Phase n s pos small r)

-- No thread passes a new barrier before as many have arrived as it is for.
pub passed_needs_all :
    (n : ℕ) (s : State) → 0 < n → n < 2 ^ 64 → Reach n s → 0 < s.passed → n ≤ s.arrived
passed_needs_all n s pos small r moved = by_phase (Reach-Phase n s pos small r)
  where
    by_phase : Phase n s → n ≤ s.arrived
    by_phase (full h) = h
    by_phase (filling sum less p r a v f) = absurd (omega arith)

-- once a thread has passed, the condition holds
Open : State → Type 0
Open s = (s.barrier.condition.failed ≡ false) × (0 < s.passed → s.barrier.condition.value ≡ true)

Step-Open : (s t : State) → Step s t → Open s → Open t
unfolding Open decrement reset_count satisfy_condition
Step-Open s _ (arrives more) o = o
Step-Open s _ (arrives_last last) o = o
Step-Open s _ (resets k some_k) o = o
Step-Open s _ (satisfies k some_k) o = (refl, λ moved. refl)
Step-Open s _ (passes k some_k awake) (f, o) =
    (f, λ moved. by_value (Bool-cases s.barrier.condition.value))
  where
    by_value :
        (s.barrier.condition.value ≡ true) ⊎ (s.barrier.condition.value ≡ false)
        → s.barrier.condition.value ≡ true
    by_value (inl v) = v
    by_value (inr v) = absurd (awake (unfold wait in rw (v, f) refl))

Reach-Open : (n : ℕ) (s : State) → Reach n s → Open s
unfolding Open create_barrier
Reach-Open n _ start = (refl, λ moved. absurd (omega arith))
Reach-Open n _ (later {s = s} {t = t} r st) = Step-Open s t st (Reach-Open n s r)

-- From the first pass on, and as long as `Init` is not called, `condition_.Wait()` returns at once,
-- whatever `count_` is: the condition is not reset with the count.
pub barrier_stays_open :
    (n : ℕ) (s : State) → Reach n s → 0 < s.passed → wait s.barrier.condition ≡ some true
unfolding wait Open
barrier_stays_open n s r moved = by_open (Reach-Open n s r)
  where
    by_open : Open s → wait s.barrier.condition ≡ some true
    by_open (f, o) = rw (o moved, f) refl
