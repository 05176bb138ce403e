-- ===== src/Sync/Mutex/Queue/Refine.antt =====
-- The mutex refines the queue, and what follows for its clients.
use aimrt_comm.Base.{ℕ, ◌≡◌, refl, sym, ◌∙◌, Bool, true, false, Option, none, some, List, []}
use aimrt_comm.Sync.Mutex.{Word}
use aimrt_comm.Sync.Mutex.System.{
  State, Step, try_wins, lock_wins, suspend, retry, pop, load_null, load_queue, unlock_wins,
  unlock_fails, exchange, fresh, Reach, start, later,
}
use aimrt_comm.Sync.Mutex.Queue.{Queue}
use aimrt_comm.Sync.Mutex.Queue.Relation.{is_owner, Owned, Shows}
use aimrt_comm.Sync.Mutex.Queue.Enter.{
  Follows, try_wins-Follows, lock_wins-Follows, suspend-Follows, retry-Follows,
}
use aimrt_comm.Sync.Mutex.Queue.Pop.{pop-Follows}
use aimrt_comm.Sync.Mutex.Queue.Load.{
  load_null-Follows, load_queue-Follows, unlock_wins-Follows, unlock_fails-Follows,
}
use aimrt_comm.Sync.Mutex.Queue.Exchange.{exchange-Follows}

-- Each step of any thread at a mutex that shows a queue is a step of that queue: a thread enters
-- where there is no owner and none waits, waits at the end, takes over from the owner as the first
-- that waits, or leaves where none waits; or the queue stays.
pub Step-Follows : (s t : State) (q : Queue) → Shows s q → Step s t → Follows t q
Step-Follows s _ q v (try_wins a out free) = try_wins-Follows s q a v out free
Step-Follows s _ q v (lock_wins a out free) = lock_wins-Follows s q a v out free
Step-Follows s _ q v (suspend a out held) = suspend-Follows s q a v out held
Step-Follows s _ q v (retry a old out) = retry-Follows s q a old v out
Step-Follows s _ q v (pop b a at_b first) = pop-Follows s q b a v at_b first
Step-Follows s _ q v (load_null b at_b empty alone) = load_null-Follows s q b v at_b empty
Step-Follows s _ q v (load_queue b a at_b empty full) = load_queue-Follows s q b a v at_b empty full
Step-Follows s _ q v (unlock_wins b at_b alone) = unlock_wins-Follows s q b v at_b alone
Step-Follows s _ q v (unlock_fails b at_b) = unlock_fails-Follows s q b v at_b
Step-Follows s _ q v (exchange b a fuel h m at_b full taken) =
    exchange-Follows s q b a fuel h m v at_b full taken

pub fresh-Shows : Shows fresh (record { owner = none; waiting = [] })
fresh-Shows = record {
  lifo = [];
  fifo = [];
  lifo_chain = refl;
  fifo_chain = refl;
  lifo_distinct = tt;
  fifo_distinct = tt;
  apart = tt;
  lifo_waiting = tt;
  fifo_waiting = tt;
  order = refl;
  owned = (refl, refl, λ j. refl);
}

-- Every state that is reached shows some queue.
pub Reach-Shows : (s : State) → Reach s → (q : Queue) × Shows s q
Reach-Shows _ start = (record { owner = none; waiting = [] }, fresh-Shows)
Reach-Shows _ (later {s = s} {t = t} r st) =
    let (q, v) = Reach-Shows s r in let f = Step-Follows s t q v st in (f.queue, f.shows)

-- In every state that is reached, two threads that hold the lock, or are in `Unlock` before it is
-- given away, are the same thread.
pub mutual_exclusion :
    (s : State) (i j : ℕ) → Reach s → is_owner (s.pc i) ≡ true → is_owner (s.pc j) ≡ true → i ≡ j
mutual_exclusion s i j r at_i at_j =
    let (q, v) = Reach-Shows s r in one s.mutex.word v.fifo q.owner v.owned
  where
    one : (w : Word) (f : List ℕ) (o : Option ℕ) → Owned o s.pc w f → i ≡ j
    one w f none h = absurd (let clash : ◌≡◌ {A = Bool} true false = sym at_i ∙ h.2 i in cc)
    one w f (some o) h = h.2 i at_i ∙ sym (h.2 j at_j)
