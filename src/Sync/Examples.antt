-- ===== src/Sync/Examples.antt =====
-- Runs of the synchronisation objects (src/sync).
use aimrt_comm.Base.{
  ◌==◌, if◌then◌else◌, ℕ, ◌≤◌, ◌≡◌, refl, true, false, [], ◌∷◌, some, none, arith,
}
use aimrt_comm.Sync.Mutex.{locked, link, Mutex, lock_and_suspend, reverse_loop, take_queue}
use aimrt_comm.Sync.Mutex.Reverse.{Reversed, reverse_loop_lem}
use aimrt_comm.Sync.Mutex.System as Mutexes
use aimrt_comm.Sync.Mutex.Queue.Enter.{Follows}
use aimrt_comm.Sync.Mutex.Queue.Refine.{Step-Follows, Reach-Shows, mutual_exclusion}
use aimrt_comm.Sync.AtomData.{AtomData, set, expired, has_data, finish_get, get_and_clear}
use aimrt_comm.Sync.AtomData.Freshness.{get_and_clear-set, get_and_clear_race}
use aimrt_comm.Sync.Condition as Conditions
use aimrt_comm.Sync.ConditionVariable.{Waiters, notify}
use aimrt_comm.Sync.ConditionVariable.Wakes.{Waits, notify_lem}
use aimrt_comm.Sync.Barrier as Barriers
use aimrt_comm.Sync.SpinMutex as Spins

-- thread 1 holds the lock, 2 and 3 come and wait, and 1 has seen that there is a queue
abbrev one_in : Mutexes.State
one_in = record {
  mutex = (lock_and_suspend 1 Mutexes.fresh.mutex).1;
  pc = Mutexes.move Mutexes.fresh.pc 1 Mutexes.holding;
}

abbrev two_in : Mutexes.State
two_in = record {
  mutex = (lock_and_suspend 2 one_in.mutex).1;
  pc = Mutexes.move one_in.pc 2 Mutexes.waiting;
}

abbrev three_in : Mutexes.State
three_in = record {
  mutex = (lock_and_suspend 3 two_in.mutex).1;
  pc = Mutexes.move two_in.pc 3 Mutexes.waiting;
}

abbrev leaving : Mutexes.State
leaving = record { mutex = three_in.mutex; pc = Mutexes.move three_in.pc 1 Mutexes.saw_queue }

leaving_reached : Mutexes.Reach leaving
unfolding lock_and_suspend
leaving_reached =
    Mutexes.later
      (Mutexes.later
        (Mutexes.later (Mutexes.later Mutexes.start (Mutexes.lock_wins 1 refl refl))
          (Mutexes.suspend 2 refl refl))
        (Mutexes.suspend 3 refl refl))
      (Mutexes.load_queue 1 3 refl refl refl)

abbrev given : Mutex
given = record {
  word = locked;
  next = link (link leaving.mutex.next 3 none) 2 (some 3);
  awaiter = some 3;
}

-- the lock goes to 2, which came first
abbrev left : Mutexes.State
left = record {
  mutex = given;
  pc = Mutexes.move (Mutexes.move leaving.pc 1 Mutexes.outside) 2 Mutexes.holding;
}

given_over : Mutexes.Step leaving left
unfolding lock_and_suspend take_queue reverse_loop
given_over = Mutexes.exchange 1 3 2 2 given refl refl refl

Step-Follows_example : Follows left (Reach-Shows leaving leaving_reached).0
Step-Follows_example =
    Step-Follows leaving left (Reach-Shows leaving leaving_reached).0
      (Reach-Shows leaving leaving_reached).1 given_over

mutual_exclusion_example : ◌≡◌ {A = ℕ} 2 2
mutual_exclusion_example =
    mutual_exclusion left 2 2 (Mutexes.later leaving_reached given_over) refl refl

reverse_loop_lem_example :
    Reversed leaving.mutex.next (3 ∷ 2 ∷ []) [] (reverse_loop 2 leaving.mutex.next none 3)
unfolding lock_and_suspend
reverse_loop_lem_example =
    reverse_loop_lem 2 leaving.mutex.next none 3 (2 ∷ []) [] (omega arith) ((refl, tt), (tt, tt))
      (tt, (tt, tt)) (refl, refl) refl

-- a value of 500 ms ago, with a timeout of one second
abbrev stale : AtomData ℕ
stale = record { obj = 0; has = false; timeout = 1000; last_recv_time = 0 }

get_and_clear-set_example :
    ((get_and_clear 5500 9 (set 5000 4 stale)).0 ≡ true)
    × ((get_and_clear 5500 9 (set 5000 4 stale)).1 ≡ 4)
    × ((get_and_clear 5600 8 (get_and_clear 5500 9 (set 5000 4 stale)).2).0 ≡ false)
get_and_clear-set_example = get_and_clear-set stale 4 9 8 5000 5500 5600 (omega arith) (omega arith)

abbrev filled : AtomData ℕ
filled = record { obj = 4; has = true; timeout = 1000; last_recv_time = 5000 }

filled_has : has_data 5500 filled ≡ true
unfolding has_data expired
filled_has = refl

filled_has_later : has_data 5600 filled ≡ true
unfolding has_data expired
filled_has_later = refl

get_and_clear_race_example :
    let (got, out, d') = get_and_clear 5500 0 filled in
    let (late, out_late, left) = get_and_clear 5600 1 d' in
    let (first, out_first, e') = finish_get (has_data 5500 filled) 0 filled in
    let (second, out_second, e'') = finish_get (has_data 5600 filled) 1 e' in
    ((got ≡ true) × (out ≡ filled.obj) × (late ≡ false) × (out_late ≡ 1))
    × ((first ≡ true) × (out_first ≡ filled.obj) × (second ≡ true) × (out_second ≡ filled.obj))
    × ((t : ℕ) → (has_data t left ≡ false) × (has_data t e'' ≡ false))
get_and_clear_race_example = get_and_clear_race filled 0 1 5500 5600 filled_has filled_has_later

wait_result_example :
    Conditions.wait
      (Conditions.run_all (Conditions.satisfy ∷ Conditions.fail ∷ []) (Conditions.create false))
    ≡ some false
unfolding Conditions.run_all Conditions.run
wait_result_example = Conditions.wait_result false (Conditions.satisfy ∷ Conditions.fail ∷ [])

-- a barrier for one thread
abbrev arrived : Barriers.State
arrived = record {
  barrier = Barriers.decrement (Barriers.create_barrier 1);
  waiting = 0;
  resetting = 1;
  satisfying = 0;
  arrived = 1;
  passed = 0;
}

abbrev counted : Barriers.State
counted = record arrived {
  barrier = Barriers.reset_count arrived.barrier;
  resetting = 0;
  satisfying = 1;
}

abbrev released : Barriers.State
released = record counted {
  barrier = Barriers.satisfy_condition counted.barrier;
  satisfying = 0;
  passed = 1;
}

released_reached : Barriers.Reach 1 released
unfolding Barriers.decrement Barriers.create_barrier
released_reached =
    Barriers.later
      (Barriers.later (Barriers.later Barriers.start (Barriers.arrives_last refl))
        (Barriers.resets 0 refl))
      (Barriers.satisfies 0 refl)

passed_needs_all_example : 1 ≤ released.arrived
passed_needs_all_example =
    Barriers.passed_needs_all 1 released (omega arith) (omega arith) released_reached (omega arith)

barrier_stays_open_example : Conditions.wait released.barrier.condition ≡ some true
barrier_stays_open_example = Barriers.barrier_stays_open 1 released released_reached (omega arith)

abbrev trying : Spins.State
trying = record { locked = false; pc = Spins.move Spins.fresh.pc 5 Spins.trying }

abbrev held : Spins.State
held = record { locked = (Spins.try_lock false).1; pc = Spins.move trying.pc 5 Spins.holding }

held_reached : Spins.Reach 1024 held
unfolding Spins.try_lock
held_reached =
    Spins.later (Spins.later Spins.start (Spins.lock_call 5 refl)) (Spins.wins 5 refl refl)

spin_mutual_exclusion_example : (◌≡◌ {A = ℕ} 5 5) × (held.locked ≡ true)
spin_mutual_exclusion_example = Spins.spin_mutual_exclusion 1024 held 5 5 held_reached refl refl

abbrev two_waiting : Waiters
two_waiting = record { head = some 6; next = λ a. if a == 6 then some 5 else none }

-- a resumed coroutine waits again, with awaiter 9
abbrev waits_again : ℕ → Waiters → Waiters
waits_again a w = record { head = some 9; next = λ b. if b == 9 then w.head else w.next b }

notify_lem_example :
    let one : Waiters = record { head = some 5; next = link two_waiting.next 6 none } in
    (notify waits_again 2 true two_waiting
      ≡ some (
        6 ∷ 5 ∷ [],
        waits_again 5 (waits_again 6 (record { head = none; next = two_waiting.next })),
      ))
    × (notify waits_again 2 false two_waiting ≡ some (6 ∷ [], waits_again 6 one))
    × Waits one (5 ∷ [])
notify_lem_example =
    notify_lem waits_again 2 two_waiting 6 (5 ∷ []) (omega arith) (λ a w. (refl, (refl, tt)))
      ((refl, (refl, refl)), ((refl, tt), (tt, tt)))
