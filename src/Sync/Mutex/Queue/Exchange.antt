-- ===== src/Sync/Mutex/Queue/Exchange.antt =====
-- Taking the new awaiters out of the word, and turning their list round.
use aimrt_comm.Base.{
  ℕ, zero, suc, ◌+◌, ◌≤◌, ◌≡◌, refl, sym, ap, ◌∙◌, true, Option, none, some, [], ◌∷◌, ◌++◌, arith,
  length,
}
use mathlib.Core.List.{append-nil}
use mathlib.Core.Path.{subst}
use mathlib.Core.Option.{some-injective}
use aimrt_comm.Sync.Mutex.{
  locked, queued, Mutex, Links, link, reverse_loop, resume_first, take_queue,
}
use aimrt_comm.Sync.Mutex.Chain.{Chain, Distinct}
use aimrt_comm.Sync.Mutex.Reverse.{reverse_onto, reverse_loop_lem}
use aimrt_comm.Sync.Mutex.System.{outside, holding, saw_queue, move, State}
use aimrt_comm.Sync.Mutex.Queue.{Queue, hand_over}
use aimrt_comm.Sync.Mutex.Queue.Relation.{is_owner, is_queued, AllWaiting, Shows, Apart-nil}
use aimrt_comm.Sync.Mutex.Queue.Enter.{Follows, Owned-by}
use aimrt_comm.Sync.Mutex.Queue.Pop.{
  Chain-some, reverse_onto-Distinct, reverse_onto-AllWaiting, handed_over, moved_twice,
}

pub loop_ends :
    (f : ℕ) (links : Links) (next : Option ℕ) (curr : ℕ)
    → links curr ≡ none
    → reverse_loop (suc f) links next curr ≡ some (link links curr next, curr)
unfolding reverse_loop
loop_ends f links next curr e = rw (e, reverse_loop) refl

pub loop_goes_on :
    (f : ℕ) (links : Links) (next : Option ℕ) (curr n : ℕ)
    → links curr ≡ some n
    → reverse_loop (suc f) links next curr ≡ reverse_loop f (link links curr next) (some curr) n
unfolding reverse_loop
loop_goes_on f links next curr n e = rw (e, reverse_loop) refl

pub no_fuel :
    (links : Links) (next : Option ℕ) (curr : ℕ) → reverse_loop zero links next curr ≡ none
unfolding reverse_loop
no_fuel links next curr = refl

-- more fuel does not change a result
pub reverse_loop_mono :
    (f g : ℕ) (links : Links) (next : Option ℕ) (curr : ℕ) (r : Links × ℕ)
    → f ≤ g
    → reverse_loop f links next curr ≡ some r
    → reverse_loop g links next curr ≡ some r
reverse_loop_mono zero g links next curr r le h =
    absurd (let clash : none ≡ some r = sym (no_fuel links next curr) ∙ h in cc)
reverse_loop_mono (suc f) zero links next curr r le h = absurd (omega arith)
reverse_loop_mono (suc f) (suc g) links next curr r le h =
    more (links curr) refl
      (λ n. reverse_loop_mono f g (link links curr next) (some curr) n r (omega arith))
  where
    more :
        (o : Option ℕ)
        → links curr ≡ o
        → ((n : ℕ)
            → reverse_loop f (link links curr next) (some curr) n ≡ some r
            → reverse_loop g (link links curr next) (some curr) n ≡ some r)
        → reverse_loop (suc g) links next curr ≡ some r
    more none e ih = loop_ends g links next curr e ∙ sym (loop_ends f links next curr e) ∙ h
    more (some n) e ih =
        loop_goes_on g links next curr n e ∙ ih n (sym (loop_goes_on f links next curr n e) ∙ h)

-- what `take_queue` returns, by what the loop returned
pub take_queue-some :
    (fuel a h : ℕ) (m m' : Mutex)
    → take_queue fuel a m ≡ some (h, m')
    → (links : Links) × (reverse_loop fuel m.next none a ≡ some (links, h))
      × (m' ≡ record m { word = locked; next = links; awaiter = links h })
unfolding take_queue
take_queue-some fuel a h m m' e = by_result (reverse_loop fuel m.next none a) e
  where
    by_result :
        (o : Option (Links × ℕ))
        → resume_first m o ≡ some (h, m')
        → (links : Links) × (o ≡ some (links, h))
          × (m' ≡ record m { word = locked; next = links; awaiter = links h })
    by_result none e = absurd (cc)
    by_result (some (links, head)) e =
        let pair = some-injective _ _ e in
        let same : head ≡ h = ap (λ (p : ℕ × Mutex). p.0) pair in
        (
          links,
          ap (λ i. some (links, i)) same,
          sym (ap (λ (p : ℕ × Mutex). p.1) pair)
              ∙ ap (λ i. record m { word = locked; next = links; awaiter = links i }) same,
        )

-- With the queue in `state_` turned round, its first awaiter becomes the owner and the others are
-- the owner's list.
pub exchange-Follows :
    (s : State) (q : Queue) (b a fuel h : ℕ) (m : Mutex)
    → Shows s q
    → s.pc b ≡ saw_queue
    → s.mutex.word ≡ queued a
    → take_queue fuel a s.mutex ≡ some (h, m)
    → Follows (record { mutex = m; pc = move (move s.pc b outside) h holding }) q
exchange-Follows s q b a fuel h m v at_b full taken =
    let owner_b : is_owner (s.pc b) ≡ true = rw at_b refl in
    let (owner, (held, _, only, known)) =
      Owned-by q.owner s.pc s.mutex.word v.fifo b v.owned owner_b in
    let known' : (v.fifo ≡ []) × (is_queued s.mutex.word ≡ true) = rw at_b at known in
    let lifo = Chain-some s.mutex.next a v.lifo (rw full at v.lifo_chain) in
    let (links, looped, made) = take_queue-some fuel a h s.mutex m taken in
    let enough = fuel + suc (length lifo.rest) in
    let r =
      reverse_loop_lem enough s.mutex.next none a lifo.rest [] (omega arith)
        (rw lifo.cons at v.lifo_distinct) (Apart-nil (a ∷ lifo.rest)) lifo.chain refl in
    let same : ◌≡◌ {A = Links × ℕ} (r.out, r.head) (links, h) = some_eq (
      sym r.done
      ∙ reverse_loop_mono fuel enough s.mutex.next none a (links, h) (omega arith) looped) in
    let turned : Chain links (some h) (reverse_onto (a ∷ lifo.rest) []) =
      subst (λ (p : Links × ℕ). Chain p.0 (some p.1) (reverse_onto (a ∷ lifo.rest) [])) same
        r.chain in
    let head = Chain-some links h (reverse_onto (a ∷ lifo.rest) []) turned in
    let distinct : Distinct (h ∷ head.rest) = rw head.cons at (
      reverse_onto-Distinct (a ∷ lifo.rest) [] (rw lifo.cons at v.lifo_distinct) tt
        (Apart-nil (a ∷ lifo.rest))) in
    let all : AllWaiting s.pc (h ∷ head.rest) =
      rw head.cons at
        (reverse_onto-AllWaiting s.pc (a ∷ lifo.rest) [] (rw lifo.cons at v.lifo_waiting) tt) in
    rw made (record {
      queue = record { owner = some h; waiting = head.rest };
      step = hand_over h b head.rest owner (
          v.order
          ∙ ap (λ l. l ++ reverse_onto v.lifo []) known'.0
          ∙ ap (λ l. reverse_onto l []) lifo.cons
          ∙ head.cons);
      shows = record {
        lifo = [];
        fifo = head.rest;
        lifo_chain = refl;
        fifo_chain = head.chain;
        lifo_distinct = tt;
        fifo_distinct = distinct.1;
        apart = tt;
        lifo_waiting = tt;
        fifo_waiting = moved_twice s.pc h b head.rest owner_b distinct.0 all.1;
        order = sym (append-nil head.rest);
        owned = handed_over s.pc h b locked head.rest refl only;
      };
    })
  where
    some_eq : {A : Type 0} {x z : A} → some x ≡ some z → x ≡ z
    some_eq e = cc
