-- ===== src/Sync/ConditionVariable.antt =====
-- `sync::ConditionVariable` (src/sync/condition_variable.h), whose awaiters form a list that is pushed
-- and taken at its head. An awaiter is a number; each function is what one successful
-- compare-exchange does, with the private work after it.
pub mod Wakes
use aimrt_comm.Base.{
  ℕ, zero, suc, Bool, true, false, Option, none, some, List, [], ◌∷◌, if◌then◌else◌,
}
use aimrt_comm.Sync.Mutex.{Links, link}

pub record Waiters : Type 0 where
  -- `awaiter_`, and every awaiter's `next_`
  pub head : Option ℕ
  pub next : Links

-- `Awaiter::await_suspend`: the awaiter that loads the head and exchanges itself for it
unfoldable pub await_suspend : ℕ → Waiters → Waiters
await_suspend a w = record { head = some a; next = link w.next a w.head }

-- the awaiters in the order in which they are resumed, and what is left
abbrev pub Woken : Type 0
Woken = Option (List ℕ × Waiters)

abbrev pub and_first : ℕ → Woken → Woken
and_first a none = none
and_first a (some (order, w)) = some (a ∷ order, w)

-- the loop that resumes, from an awaiter on; `none` where the fuel runs out. `resume` is what the
-- coroutine of an awaiter does until it suspends again, here to the awaiters: it may wait again, and
-- its awaiter may be reused. The loop reads `next_` after that.
unfoldable pub resume_from : (ℕ → Waiters → Waiters) → ℕ → Waiters → ℕ → Woken
resume_from resume zero w a = none
resume_from resume (suc fuel) w a =
    let w' = resume a w in
    elim (w'.next a) [
      | none ↦ some (a ∷ [], w')
      | some b ↦ and_first a (resume_from resume fuel w' b)
    ]

-- `Notify`
unfoldable pub notify : (ℕ → Waiters → Waiters) → ℕ → Bool → Waiters → Woken
unfolding resume_from
notify resume fuel all w = elim w.head [
  | none ↦ some ([], w)
  | some a ↦
      let next' = if all then w.next else link w.next a none in
      let head' = if all then none else w.next a in
      resume_from resume fuel (record { head = head'; next = next' }) a
]
