-- ===== src/Sync/Mutex/Queue/Pop.antt =====
-- The head of the queue is woken: it takes the lock, and the others wait on.
use aimrt_comm.Base.{
  ℕ, ◌≡◌, ◌≢◌, refl, sym, ap, ◌∙◌, Bool, true, false, some, List, [], ◌∷◌, ◌++◌, ◌==◌, arith,
}
use aimrt_comm.Sync.Mutex.{Word, Links, pop_awaiter}
use aimrt_comm.Sync.Mutex.Chain.{Chain, NotIn, Distinct}
use aimrt_comm.Sync.Mutex.Reverse.{Apart, Apart-cons, reverse_onto}
use aimrt_comm.Sync.Mutex.System.{outside, waiting, holding, Pcs, move, State, is_locked}
use aimrt_comm.Sync.Mutex.Queue.{Queue, hand_over}
use aimrt_comm.Sync.Mutex.Queue.Relation.{
  is_owner, AllWaiting, Owned, Shows, outside-NotIn, move-AllWaiting, move_self,
}
use aimrt_comm.Sync.Mutex.Queue.Enter.{Follows, Owned-by}

-- a chain that starts at an awaiter
pub record Head (next : Links) (a : ℕ) (xs : List ℕ) : Type 0 where
  pub rest : List ℕ
  pub cons : xs ≡ a ∷ rest
  pub chain : Chain next (next a) rest

pub Chain-some : (next : Links) (a : ℕ) (xs : List ℕ) → Chain next (some a) xs → Head next a xs
Chain-some next a [] c = absurd (cc)
Chain-some next a (x ∷ xs) c =
    let same : x ≡ a = ground arith in
    record { rest = xs; cons = ap (λ i. i ∷ xs) same; chain = rw same at c.1 }

pub Apart-head : (xs ys : List ℕ) (a : ℕ) → Apart xs (a ∷ ys) → NotIn a xs × Apart xs ys
Apart-head [] ys a h = (tt, tt)
Apart-head (x ∷ xs) ys a h =
    let (l, r) = Apart-head xs ys a h.1 in ((flip x a h.0.0, l), (h.0.1, r))
  where
    flip : (x a : ℕ) → x == a ≡ false → a == x ≡ false
    flip x a h = ground arith

pub reverse_onto-Distinct :
    (xs ys : List ℕ) → Distinct xs → Distinct ys → Apart xs ys → Distinct (reverse_onto xs ys)
reverse_onto-Distinct [] ys h k a = k
reverse_onto-Distinct (x ∷ xs) ys h k a =
    reverse_onto-Distinct xs (x ∷ ys) h.1 (a.0, k) (Apart-cons x xs ys h.0 a.1)

pub reverse_onto-AllWaiting :
    (pc : Pcs) (xs ys : List ℕ)
    → AllWaiting pc xs
    → AllWaiting pc ys
    → AllWaiting pc (reverse_onto xs ys)
reverse_onto-AllWaiting pc [] ys h k = k
reverse_onto-AllWaiting pc (x ∷ xs) ys h k = reverse_onto-AllWaiting pc xs (x ∷ ys) h.1 (h.0, k)

pub holder_not_waiting : (pc : Pcs) (b : ℕ) → is_owner (pc b) ≡ true → pc b ≢ waiting
holder_not_waiting pc b h e =
    absurd (let clash : ◌≡◌ {A = Bool} false true = ap is_owner (sym e) ∙ h in cc)

-- After a handover from `b` to `a` the owner is `a` alone.
pub handed_over :
    (pc : Pcs) (a b : ℕ) (w : Word) (fifo : List ℕ)
    → is_locked w ≡ true
    → ((j : ℕ) → is_owner (pc j) ≡ true → j ≡ b)
    → Owned (some a) (move (move pc b outside) a holding) w fifo
handed_over pc a b w fifo held only = (
  held,
  rw (move_self (move pc b outside) a holding) refl,
  λ j h. alone j h,
  rw (move_self (move pc b outside) a holding) tt,
)
  where
    alone : (j : ℕ) → is_owner (move (move pc b outside) a holding j) ≡ true → j ≡ a
    alone j h = ground (arith, only j)

pub moved_twice :
    (pc : Pcs) (a b : ℕ) (xs : List ℕ)
    → is_owner (pc b) ≡ true
    → NotIn a xs
    → AllWaiting pc xs
    → AllWaiting (move (move pc b outside) a holding) xs
moved_twice pc a b xs owner absent w =
    move-AllWaiting (move pc b outside) a holding xs absent
      (move-AllWaiting pc b outside xs (outside-NotIn pc b xs (holder_not_waiting pc b owner) w) w)

-- The head of the owner's list becomes the owner.
pub pop-Follows :
    (s : State) (q : Queue) (b a : ℕ)
    → Shows s q
    → s.pc b ≡ holding
    → s.mutex.awaiter ≡ some a
    → Follows
        (record { mutex = (pop_awaiter a s.mutex).1; pc = move (move s.pc b outside) a holding })
        q
unfolding pop_awaiter
pop-Follows s q b a v at_b first =
    let owner_b : is_owner (s.pc b) ≡ true = rw at_b refl in
    let (owner, (held, _, only, _)) = Owned-by q.owner s.pc s.mutex.word v.fifo b v.owned owner_b in
    let head = Chain-some s.mutex.next a v.fifo (rw first at v.fifo_chain) in
    let (not_lifo, apart) = Apart-head v.lifo head.rest a (rw head.cons at v.apart) in
    let distinct : Distinct (a ∷ head.rest) = rw head.cons at v.fifo_distinct in
    let all : AllWaiting s.pc (a ∷ head.rest) = rw head.cons at v.fifo_waiting in
    record {
      queue = record { owner = some a; waiting = head.rest ++ reverse_onto v.lifo [] };
      step = hand_over a b _ owner (v.order ∙ ap (λ l. l ++ reverse_onto v.lifo []) head.cons);
      shows = record {
        lifo = v.lifo;
        fifo = head.rest;
        lifo_chain = v.lifo_chain;
        fifo_chain = head.chain;
        lifo_distinct = v.lifo_distinct;
        fifo_distinct = distinct.1;
        apart = apart;
        lifo_waiting = moved_twice s.pc a b v.lifo owner_b not_lifo v.lifo_waiting;
        fifo_waiting = moved_twice s.pc a b head.rest owner_b distinct.0 all.1;
        order = refl;
        owned = handed_over s.pc a b s.mutex.word head.rest held only;
      };
    }
