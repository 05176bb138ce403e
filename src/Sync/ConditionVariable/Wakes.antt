-- ===== src/Sync/ConditionVariable/Wakes.antt =====
-- Who is woken, in which order.
use aimrt_comm.Base.{
  ℕ, zero, suc, ◌≤◌, ◌≡◌, refl, ap, true, false, Option, none, some, List, [], ◌∷◌, arith, length,
}
use aimrt_comm.Sync.Mutex.{Links, link}
use aimrt_comm.Sync.Mutex.Chain.{Chain, NotIn, Distinct, link_self, Chain-link}
use aimrt_comm.Sync.ConditionVariable.{Waiters, await_suspend, and_first, resume_from, notify}

-- the awaiters are these, the last that came first
abbrev pub Waits : Waiters → List ℕ → Type 0
Waits w xs = Chain w.next w.head xs × Distinct xs

-- An awaiter that suspends, not among those that wait, waits before them, and they go on waiting in
-- their order.
pub await_suspend-Waits :
    (a : ℕ) (w : Waiters) (xs : List ℕ)
    → NotIn a xs
    → Waits w xs
    → Waits (await_suspend a w) (a ∷ xs)
unfolding await_suspend
await_suspend-Waits a w xs fresh (c, d) = (
  (refl, rw (link_self w.next a w.head) (Chain-link w.next w.head w.head a xs fresh c)),
  (fresh, d),
)

-- the links of these awaiters are the same
abbrev pub SameLinks : List ℕ → Links → Links → Type 0
SameLinks [] next next' = Unit
SameLinks (x ∷ xs) next next' = (next' x ≡ next x) × SameLinks xs next next'

Chain-SameLinks :
    (next next' : Links) (h : Option ℕ) (xs : List ℕ)
    → SameLinks xs next next'
    → Chain next h xs
    → Chain next' h xs
Chain-SameLinks next next' h [] same c = c
Chain-SameLinks next next' h (x ∷ xs) (first, same) (e, c) =
    (e, rw first (Chain-SameLinks next next' (next x) xs same c))

-- resuming an awaiter, whatever else it does, leaves the links of these awaiters alone, its own
-- included
abbrev pub LeavesLinks : (ℕ → Waiters → Waiters) → List ℕ → Type 0
LeavesLinks resume xs = (a : ℕ) (w : Waiters) → SameLinks xs w.next (resume a w).next

abbrev pub resume_all : (ℕ → Waiters → Waiters) → List ℕ → Waiters → Waiters
resume_all resume [] w = w
resume_all resume (x ∷ xs) w = resume_all resume xs (resume x w)

resume_from_lem :
    (resume : ℕ → Waiters → Waiters) (fuel : ℕ) (w : Waiters) (a : ℕ) (xs : List ℕ)
    → suc (length xs) ≤ fuel
    → LeavesLinks resume (a ∷ xs)
    → Chain w.next (w.next a) xs
    → resume_from resume fuel w a ≡ some (a ∷ xs, resume_all resume (a ∷ xs) w)
unfolding resume_from
resume_from_lem resume zero w a xs few leaves c = absurd (omega arith)
resume_from_lem resume (suc fuel) w a [] few leaves c = rw ((leaves a w).0, c, resume_from) refl
resume_from_lem resume (suc fuel) w a (x ∷ xs) few leaves (e, c) =
    let (own, (first, others)) = leaves a w in
    rw (own, e, resume_from)
      (ap (and_first a) (
        resume_from_lem resume fuel (resume a w) x xs (omega arith) (λ b v. (leaves b v).1)
          (rw first (Chain-SameLinks w.next (resume a w).next (w.next x) xs others c))))

-- Where resuming an awaiter does not change the links of the awaiters that waited at the call: waking
-- all resumes every awaiter, the last that came first; waking one resumes the last that came alone,
-- and at that time the others wait on in their order. The loop ends, and what is left is what the
-- resumed coroutines make of the list without those that were taken.
pub notify_lem :
    (resume : ℕ → Waiters → Waiters) (fuel : ℕ) (w : Waiters) (a : ℕ) (xs : List ℕ)
    → suc (length xs) ≤ fuel
    → LeavesLinks resume (a ∷ xs)
    → Waits w (a ∷ xs)
    → let one : Waiters = record { head = w.next a; next = link w.next a none } in
      (notify resume fuel true w
        ≡ some (a ∷ xs, resume_all resume (a ∷ xs) (record { head = none; next = w.next })))
      × (notify resume fuel false w ≡ some (a ∷ [], resume a one))
      × Waits one xs
unfolding notify
notify_lem resume fuel w a xs few leaves ((e, c), (fresh, d)) =
    let one : Waiters = record { head = w.next a; next = link w.next a none } in
    (
      rw e (resume_from_lem resume fuel (record { head = none; next = w.next }) a xs few leaves c),
      rw e (
          resume_from_lem resume fuel one a [] (omega arith) (λ b v. ((leaves b v).0, tt))
            (link_self w.next a none)),
      (Chain-link w.next (w.next a) none a xs fresh c, d),
    )
