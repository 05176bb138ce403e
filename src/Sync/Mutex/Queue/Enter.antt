-- ===== src/Sync/Mutex/Queue/Enter.antt =====
-- Locking, queueing and failed rounds keep the view of the mutex as a queue.
use aimrt_comm.Base.{
  ℕ, ◌≡◌, ◌≢◌, refl, sym, ap, ◌∙◌, Bool, true, false, Option, none, some, List, [], ◌∷◌, ◌++◌, ◌==◌,
  arith, Bool-cases, inl, inr,
}
use mathlib.Core.List.{append_assoc}
use aimrt_comm.Sync.Mutex.{
  Word, unlocked, locked, queued, Mutex, Links, link, as_link, try_lock, lock_and_suspend,
  failed_round,
}
use aimrt_comm.Sync.Mutex.Chain.{Chain, NotIn, Chain-link, link_self}
use aimrt_comm.Sync.Mutex.Reverse.{reverse_onto}
use aimrt_comm.Sync.Mutex.System.{
  Pc, outside, waiting, holding, saw_null, saw_queue, Pcs, move, State, is_locked,
}
use aimrt_comm.Sync.Mutex.Queue.{Queue, QueueStep, stay, enter, wait}
use aimrt_comm.Sync.Mutex.Queue.Relation.{
  is_owner, Knows, Owned, Shows, outside-NotIn, move-AllWaiting, move_self,
}

-- the queue after a step, and that the step is one of a queue
pub record Follows (t : State) (q : Queue) : Type 0 where
  pub queue : Queue
  pub step : QueueStep q queue
  pub shows : Shows t queue

pub Chain-none : (next : Links) (xs : List ℕ) → Chain next none xs → xs ≡ []
Chain-none next [] c = refl
Chain-none next (x ∷ xs) c = absurd (cc)

-- an unlocked mutex has no owner and no queue
pub Owned-unlocked :
    (ow : Option ℕ) (pc : Pcs) (w : Word) (fifo : List ℕ)
    → Owned ow pc w fifo
    → w ≡ unlocked
    → (ow ≡ none) × Owned none pc w fifo
Owned-unlocked none pc w fifo h e = (refl, h)
Owned-unlocked (some o) pc w fifo h e = absurd (clash w h.0 e)
  where
    clash : (w : Word) → is_locked w ≡ true → w ≡ unlocked → ⊥
    clash w h e = ground arith

pub Owned-locked :
    (ow : Option ℕ) (pc : Pcs) (w : Word) (fifo : List ℕ)
    → Owned ow pc w fifo
    → is_locked w ≡ true
    → (o : ℕ) × (ow ≡ some o) × Owned (some o) pc w fifo
Owned-locked none pc w fifo h e = absurd (clash w e h.0)
  where
    clash : (w : Word) → is_locked w ≡ true → w ≡ unlocked → ⊥
    clash w h e = ground arith
Owned-locked (some o) pc w fifo h e = (o, refl, h)

-- a thread that is in `Unlock` or holds the lock is the owner
pub Owned-by :
    (ow : Option ℕ) (pc : Pcs) (w : Word) (fifo : List ℕ) (b : ℕ)
    → Owned ow pc w fifo
    → is_owner (pc b) ≡ true
    → (ow ≡ some b) × Owned (some b) pc w fifo
Owned-by none pc w fifo b h e = absurd (let clash : ◌≡◌ {A = Bool} true false = sym e ∙ h.2 b in cc)
Owned-by (some o) pc w fifo b h e = let same : b ≡ o = h.2 b e in rw same (refl, h)

not_waiting : (pc : Pcs) (a : ℕ) → pc a ≡ outside → pc a ≢ waiting
not_waiting pc a e f = cc

try_lock-unlocked : (m : Mutex) → m.word ≡ unlocked → (try_lock m).1 ≡ record m { word = locked }
unfolding try_lock
try_lock-unlocked m h = rw h refl

lock-unlocked :
    (a : ℕ) (m : Mutex) → m.word ≡ unlocked → (lock_and_suspend a m).1 ≡ record m { word = locked }
unfolding lock_and_suspend
lock-unlocked a m h = rw h refl

-- the view after a thread has entered an unlocked mutex
entered :
    (s : State) (q : Queue) (a : ℕ)
    → Shows s q
    → s.pc a ≡ outside
    → s.mutex.word ≡ unlocked
    → Follows (record { mutex = record s.mutex { word = locked }; pc = move s.pc a holding }) q
entered s q a v out free =
    let (no_owner, (_, no_fifo, none_in)) =
      Owned-unlocked q.owner s.pc s.mutex.word v.fifo v.owned free in
    let no_lifo = Chain-none s.mutex.next v.lifo (rw free at v.lifo_chain) in
    record {
      queue = record { owner = some a; waiting = [] };
      step = enter a no_owner (v.order ∙ rw (no_fifo, no_lifo) refl);
      shows = record {
        lifo = [];
        fifo = [];
        lifo_chain = refl;
        fifo_chain = rw no_fifo at v.fifo_chain;
        lifo_distinct = tt;
        fifo_distinct = tt;
        apart = tt;
        lifo_waiting = tt;
        fifo_waiting = tt;
        order = refl;
        owned = (
          refl,
          rw (move_self s.pc a holding) refl,
          λ j h. only j (none_in j) h,
          rw (move_self s.pc a holding) tt,
        );
      };
    }
  where
    only : (j : ℕ) → is_owner (s.pc j) ≡ false → is_owner (move s.pc a holding j) ≡ true → j ≡ a
    only j h k = ground arith

pub try_wins-Follows :
    (s : State) (q : Queue) (a : ℕ)
    → Shows s q
    → s.pc a ≡ outside
    → s.mutex.word ≡ unlocked
    → Follows (record { mutex = (try_lock s.mutex).1; pc = move s.pc a holding }) q
try_wins-Follows s q a v out free = rw (try_lock-unlocked s.mutex free) (entered s q a v out free)

pub lock_wins-Follows :
    (s : State) (q : Queue) (a : ℕ)
    → Shows s q
    → s.pc a ≡ outside
    → s.mutex.word ≡ unlocked
    → Follows (record { mutex = (lock_and_suspend a s.mutex).1; pc = move s.pc a holding }) q
lock_wins-Follows s q a v out free = rw (lock-unlocked a s.mutex free) (entered s q a v out free)

suspended :
    (a : ℕ) (m : Mutex)
    → is_locked m.word ≡ true
    → (lock_and_suspend a m).1 ≡ record m { next = link m.next a (as_link m.word); word = queued a }
unfolding lock_and_suspend
suspended a m h = ground arith

-- `(xs ++ [a])` of a reversed list
reverse_onto-append : (xs ys zs : List ℕ) → reverse_onto xs (ys ++ zs) ≡ reverse_onto xs ys ++ zs
reverse_onto-append [] ys zs = refl
reverse_onto-append (x ∷ xs) ys zs = reverse_onto-append xs (x ∷ ys) zs

Knows-queued :
    (p : Pc) (w : Word) (fifo : List ℕ) (a : ℕ) → Knows p w fifo → Knows p (queued a) fifo
Knows-queued outside w fifo a h = tt
Knows-queued waiting w fifo a h = tt
Knows-queued holding w fifo a h = tt
Knows-queued saw_null w fifo a h = h
Knows-queued saw_queue w fifo a h = (h.0, refl)

-- The awaiter of a thread that is suspended goes to the end of the queue.
pub suspend-Follows :
    (s : State) (q : Queue) (a : ℕ)
    → Shows s q
    → s.pc a ≡ outside
    → is_locked s.mutex.word ≡ true
    → Follows (record { mutex = (lock_and_suspend a s.mutex).1; pc = move s.pc a waiting }) q
suspend-Follows s q a v out held =
    let (o, owner, (is_held, at_owner, only, knows)) =
      Owned-locked q.owner s.pc s.mutex.word v.fifo v.owned held in
    let fresh_lifo = outside-NotIn s.pc a v.lifo (not_waiting s.pc a out) v.lifo_waiting in
    let fresh_fifo = outside-NotIn s.pc a v.fifo (not_waiting s.pc a out) v.fifo_waiting in
    let not_owner : a == o ≡ false = differs o at_owner in
    rw (suspended a s.mutex held) (record {
      queue = record q { waiting = q.waiting ++ a ∷ [] };
      step = wait a o owner;
      shows = record {
        lifo = a ∷ v.lifo;
        fifo = v.fifo;
        lifo_chain = (
          refl,
          rw (link_self s.mutex.next a (as_link s.mutex.word)) (
              Chain-link s.mutex.next (as_link s.mutex.word) (as_link s.mutex.word) a v.lifo
                fresh_lifo v.lifo_chain),
        );
        fifo_chain =
            Chain-link s.mutex.next s.mutex.awaiter (as_link s.mutex.word) a v.fifo fresh_fifo
              v.fifo_chain;
        lifo_distinct = (fresh_lifo, v.lifo_distinct);
        fifo_distinct = v.fifo_distinct;
        apart = (fresh_fifo, v.apart);
        lifo_waiting = (
          move_self s.pc a waiting,
          move-AllWaiting s.pc a waiting v.lifo fresh_lifo v.lifo_waiting,
        );
        fifo_waiting = move-AllWaiting s.pc a waiting v.fifo fresh_fifo v.fifo_waiting;
        order =
            ap (λ l. l ++ a ∷ []) v.order
            ∙ append_assoc v.fifo (reverse_onto v.lifo []) (a ∷ [])
            ∙ ap (λ l. v.fifo ++ l) (sym (reverse_onto-append v.lifo [] (a ∷ [])));
        owned = rw owner (
          refl,
          rw not_owner at_owner,
          λ j h. only j (still j h),
          rw not_owner (Knows-queued (s.pc o) s.mutex.word v.fifo a knows),
        );
      };
    })
  where
    differs : (o : ℕ) → is_owner (s.pc o) ≡ true → a == o ≡ false
    differs o h = elim (Bool-cases (a == o)) [
      | inl e ↦ absurd (
          let clash : ◌≡◌ {A = Bool} false true =
            ap is_owner (sym out) ∙ ap (λ i. is_owner (s.pc i)) (eqb a o e) ∙ h in
          cc)
      | inr e ↦ e
    ]
      where
        eqb : (a o : ℕ) → a == o ≡ true → a ≡ o
        eqb a o e = ground arith

    still : (j : ℕ) → is_owner (move s.pc a waiting j) ≡ true → is_owner (s.pc j) ≡ true
    still j h = ground arith

failed_round_fields :
    (a : ℕ) (old : Word) (m : Mutex)
    → ((failed_round a old m).word ≡ m.word)
      × ((failed_round a old m).awaiter ≡ m.awaiter)
      × ((next : Links)
          → (p : Option ℕ) → (xs : List ℕ) → NotIn a xs
          → Chain m.next p xs
          → Chain (failed_round a old m).next p xs)
unfolding failed_round
failed_round_fields a unlocked m = (refl, refl, λ n p xs h c. c)
failed_round_fields a locked m = (refl, refl, λ n p xs h c. Chain-link m.next p none a xs h c)
failed_round_fields a (queued b) m =
    (refl, refl, λ n p xs h c. Chain-link m.next p (some b) a xs h c)

pub retry-Follows :
    (s : State) (q : Queue) (a : ℕ) (old : Word)
    → Shows s q
    → s.pc a ≡ outside
    → Follows (record { mutex = failed_round a old s.mutex; pc = s.pc }) q
retry-Follows s q a old v out =
    let fresh_lifo = outside-NotIn s.pc a v.lifo (not_waiting s.pc a out) v.lifo_waiting in
    let fresh_fifo = outside-NotIn s.pc a v.fifo (not_waiting s.pc a out) v.fifo_waiting in
    let (same_word, same_awaiter, kept) = failed_round_fields a old s.mutex in
    record {
      queue = q;
      step = stay;
      shows = record {
        lifo = v.lifo;
        fifo = v.fifo;
        lifo_chain =
            rw same_word (kept s.mutex.next (as_link s.mutex.word) v.lifo fresh_lifo v.lifo_chain);
        fifo_chain =
            rw same_awaiter (kept s.mutex.next s.mutex.awaiter v.fifo fresh_fifo v.fifo_chain);
        lifo_distinct = v.lifo_distinct;
        fifo_distinct = v.fifo_distinct;
        apart = v.apart;
        lifo_waiting = v.lifo_waiting;
        fifo_waiting = v.fifo_waiting;
        order = v.order;
        owned = rw same_word v.owned;
      };
    }
