-- ===== src/Sync/Mutex.antt =====
-- The coroutine mutex `sync::v2::Mutex` (src/sync/mutex.{h,cpp}). An awaiter is a number; its
-- `next_` is an entry of a store. Between two accesses of `state_` a thread touches only what is
-- its own, so the parts of an operation that run as one step are functions here.
pub mod Chain
pub mod Reverse
pub mod System
pub mod Queue
use aimrt_comm.Base.{ℕ, zero, suc, Bool, true, false, Option, none, some, List, ◌==◌, if◌then◌else◌}

-- `state_`: the mutex itself, a null pointer, or the awaiter that was queued last
pub data Word : Type 0 where
  unlocked locked : Word
  queued : ℕ → Word

abbrev pub Links : Type 0
Links = ℕ → Option ℕ

-- `a->next_ = p`
abbrev pub link : Links → ℕ → Option ℕ → Links
link next a p b = if a == b then p else next b

pub record Mutex : Type 0 where
  pub word : Word
  pub next : Links
  -- `awaiter_`
  pub awaiter : Option ℕ

-- `TryLock`: one compare-exchange
unfoldable pub try_lock : Mutex → Bool × Mutex
try_lock m = elim m.word [
  | unlocked ↦ (true, record m { word = locked })
  | locked ↦ (false, m)
  | queued b ↦ (false, m)
]

-- `static_cast<Awaiter*>(old_state)`
abbrev pub as_link : Word → Option ℕ
as_link unlocked = none
as_link locked = none
as_link (queued b) = some b

-- A round of `LockAndSuspend` whose compare-exchange succeeds, on the value that it loaded;
-- the result is whether the coroutine is suspended.
unfoldable pub lock_and_suspend : ℕ → Mutex → Bool × Mutex
lock_and_suspend a m = elim m.word [
  | unlocked ↦ (false, record m { word = locked })
  | locked ↦ (true, record m { next = link m.next a none; word = queued a })
  | queued b ↦ (true, record m { next = link m.next a (some b); word = queued a })
]

-- A round whose compare-exchange fails has only written `next_` of its own awaiter, or nothing.
unfoldable pub failed_round : ℕ → Word → Mutex → Mutex
failed_round a old m = elim old [
  | unlocked ↦ m
  | locked ↦ record m { next = link m.next a none }
  | queued b ↦ record m { next = link m.next a (some b) }
]

-- the loop of `Unlock` that turns the LIFO list round; `none` where the fuel runs out
unfoldable pub reverse_loop : ℕ → Links → Option ℕ → ℕ → Option (Links × ℕ)
reverse_loop zero links next curr = none
reverse_loop (suc fuel) links next curr = elim (links curr) [
  | none ↦ some (link links curr next, curr)
  | some next_curr ↦ reverse_loop fuel (link links curr next) (some curr) next_curr
]

-- `Unlock` where `awaiter_` is not null: the awaiter to resume, and the mutex
unfoldable pub pop_awaiter : ℕ → Mutex → ℕ × Mutex
pop_awaiter a m = (a, record m { awaiter = m.next a })

-- the end of `Unlock`: the first awaiter is resumed, the others are the owner's list
abbrev pub resume_first : Mutex → Option (Links × ℕ) → Option (ℕ × Mutex)
resume_first m none = none
resume_first m (some (links, head)) =
    some (head, record m { word = locked; next = links; awaiter = links head })

-- `Unlock` from the exchange on, with the awaiter that the exchange returned
unfoldable pub take_queue : ℕ → ℕ → Mutex → Option (ℕ × Mutex)
take_queue fuel b m = resume_first m (reverse_loop fuel m.next none b)
