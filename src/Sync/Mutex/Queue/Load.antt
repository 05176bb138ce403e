-- ===== src/Sync/Mutex/Queue/Load.antt =====
-- Reading the word in `Unlock`, and giving the lock back when nobody waits.
use aimrt_comm.Base.{ℕ, ◌≡◌, refl, ◌∙◌, true, false, none, List, [], arith}
use aimrt_comm.Sync.Mutex.{unlocked, locked, queued}
use aimrt_comm.Sync.Mutex.Chain.{Chain}
use aimrt_comm.Sync.Mutex.System.{Pc, outside, holding, saw_null, saw_queue, move, State}
use aimrt_comm.Sync.Mutex.Queue.{Queue, stay, leave}
use aimrt_comm.Sync.Mutex.Queue.Relation.{
  is_owner, AllWaiting, Knows, Shows, outside-NotIn, move-AllWaiting, move_self,
}
use aimrt_comm.Sync.Mutex.Queue.Enter.{Follows, Chain-none, Owned-by}
use aimrt_comm.Sync.Mutex.Queue.Pop.{holder_not_waiting}

-- A step in which the owner only learns something.
pub learns :
    (s : State) (q : Queue) (b : ℕ) (p : Pc)
    → Shows s q
    → is_owner (s.pc b) ≡ true
    → is_owner p ≡ true
    → ((fifo : List ℕ)
        → Chain s.mutex.next s.mutex.awaiter fifo
        → Knows (s.pc b) s.mutex.word fifo
        → Knows p s.mutex.word fifo)
    → Follows (record { mutex = s.mutex; pc = move s.pc b p }) q
learns s q b p v owner_b owner_p knows =
    let (owner, (held, _, only, known)) =
      Owned-by q.owner s.pc s.mutex.word v.fifo b v.owned owner_b in
    record {
      queue = q;
      step = stay;
      shows = record {
        lifo = v.lifo;
        fifo = v.fifo;
        lifo_chain = v.lifo_chain;
        fifo_chain = v.fifo_chain;
        lifo_distinct = v.lifo_distinct;
        fifo_distinct = v.fifo_distinct;
        apart = v.apart;
        lifo_waiting = kept v.lifo v.lifo_waiting;
        fifo_waiting = kept v.fifo v.fifo_waiting;
        order = v.order;
        owned = rw owner (
          held,
          rw (move_self s.pc b p) owner_p,
          λ j h. only j (still j h),
          rw (move_self s.pc b p) (knows v.fifo v.fifo_chain known),
        );
      };
    }
  where
    kept : (xs : List ℕ) → AllWaiting s.pc xs → AllWaiting (move s.pc b p) xs
    kept xs w =
        move-AllWaiting s.pc b p xs (outside-NotIn s.pc b xs (holder_not_waiting s.pc b owner_b) w)
          w

    still : (j : ℕ) → is_owner (move s.pc b p j) ≡ true → is_owner (s.pc j) ≡ true
    still j h = ground arith

pub load_null-Follows :
    (s : State) (q : Queue) (b : ℕ)
    → Shows s q
    → s.pc b ≡ holding
    → s.mutex.awaiter ≡ none
    → Follows (record { mutex = s.mutex; pc = move s.pc b saw_null }) q
load_null-Follows s q b v at_b empty =
    learns s q b saw_null v (rw at_b refl) refl
      (λ fifo c _. Chain-none s.mutex.next fifo (rw empty at c))

pub load_queue-Follows :
    (s : State) (q : Queue) (b a : ℕ)
    → Shows s q
    → s.pc b ≡ holding
    → s.mutex.awaiter ≡ none
    → s.mutex.word ≡ queued a
    → Follows (record { mutex = s.mutex; pc = move s.pc b saw_queue }) q
load_queue-Follows s q b a v at_b empty full =
    learns s q b saw_queue v (rw at_b refl) refl
      (λ fifo c _. (Chain-none s.mutex.next fifo (rw empty at c), rw full refl))

pub unlock_fails-Follows :
    (s : State) (q : Queue) (b : ℕ)
    → Shows s q
    → s.pc b ≡ saw_null
    → Follows (record { mutex = s.mutex; pc = move s.pc b holding }) q
unlock_fails-Follows s q b v at_b = learns s q b holding v (rw at_b refl) refl (λ fifo c k. tt)

pub unlock_wins-Follows :
    (s : State) (q : Queue) (b : ℕ)
    → Shows s q
    → s.pc b ≡ saw_null
    → s.mutex.word ≡ locked
    → Follows (record { mutex = record s.mutex { word = unlocked }; pc = move s.pc b outside }) q
unlock_wins-Follows s q b v at_b alone =
    let owner_b : is_owner (s.pc b) ≡ true = rw at_b refl in
    let (owner, (held, _, only, known)) =
      Owned-by q.owner s.pc s.mutex.word v.fifo b v.owned owner_b in
    let no_fifo : v.fifo ≡ [] = rw at_b at known in
    let no_lifo = Chain-none s.mutex.next v.lifo (rw alone at v.lifo_chain) in
    record {
      queue = record { owner = none; waiting = [] };
      step = leave b owner (v.order ∙ rw (no_fifo, no_lifo) refl);
      shows = record {
        lifo = [];
        fifo = [];
        lifo_chain = refl;
        fifo_chain = rw no_fifo at v.fifo_chain;
        lifo_distinct = tt;
        fifo_distinct = tt;
        apart = tt;
        lifo_waiting = tt;
        fifo_waiting = tt;
        order = refl;
        owned = (refl, refl, λ j. gone j (only j));
      };
    }
  where
    gone : (j : ℕ) → (is_owner (s.pc j) ≡ true → j ≡ b) → is_owner (move s.pc b outside j) ≡ false
    gone j h = ground arith
