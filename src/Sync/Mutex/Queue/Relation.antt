-- ===== src/Sync/Mutex/Queue/Relation.antt =====
-- How a state of the mutex shows an owner and a queue.
use aimrt_comm.Base.{
  ℕ, ◌≡◌, ◌≢◌, ◌∙◌, Bool, true, false, Option, none, some, List, [], ◌∷◌, ◌++◌, ◌==◌, arith,
  Bool-cases, inl, inr,
}
use aimrt_comm.Sync.Mutex.{Word, unlocked, queued, as_link}
use aimrt_comm.Sync.Mutex.Chain.{Chain, NotIn, Distinct}
use aimrt_comm.Sync.Mutex.Reverse.{Apart, reverse_onto}
use aimrt_comm.Sync.Mutex.System.{
  Pc, outside, waiting, saw_null, saw_queue, Pcs, move, State, is_locked,
}
use aimrt_comm.Sync.Mutex.Queue.{Queue}

abbrev pub is_owner : Pc → Bool
is_owner outside = false
is_owner waiting = false
is_owner _ = true

abbrev pub is_queued : Word → Bool
is_queued (queued b) = true
is_queued _ = false

abbrev pub AllWaiting : Pcs → List ℕ → Type 0
AllWaiting pc [] = Unit
AllWaiting pc (x ∷ xs) = (pc x ≡ waiting) × AllWaiting pc xs

-- what a thread that runs `Unlock` knows
abbrev pub Knows : Pc → Word → List ℕ → Type 0
Knows saw_null w fifo = fifo ≡ []
Knows saw_queue w fifo = (fifo ≡ []) × (is_queued w ≡ true)
Knows _ w fifo = Unit

abbrev pub Owned : Option ℕ → Pcs → Word → List ℕ → Type 0
Owned none pc w fifo = (w ≡ unlocked) × (fifo ≡ []) × ((j : ℕ) → is_owner (pc j) ≡ false)
Owned (some o) pc w fifo =
    (is_locked w ≡ true)
    × (is_owner (pc o) ≡ true)
    × ((j : ℕ) → is_owner (pc j) ≡ true → j ≡ o)
    × Knows (pc o) w fifo

pub record Shows (s : State) (q : Queue) : Type 0 where
  -- the queue in `state_`, last first, and the queue of the owner, first first
  pub lifo : List ℕ
  pub fifo : List ℕ
  pub lifo_chain : Chain s.mutex.next (as_link s.mutex.word) lifo
  pub fifo_chain : Chain s.mutex.next s.mutex.awaiter fifo
  pub lifo_distinct : Distinct lifo
  pub fifo_distinct : Distinct fifo
  pub apart : Apart lifo fifo
  pub lifo_waiting : AllWaiting s.pc lifo
  pub fifo_waiting : AllWaiting s.pc fifo
  pub order : q.waiting ≡ fifo ++ reverse_onto lifo []
  pub owned : Owned q.owner s.pc s.mutex.word fifo

pub outside-NotIn :
    (pc : Pcs) (a : ℕ) (xs : List ℕ) → pc a ≢ waiting → AllWaiting pc xs → NotIn a xs
outside-NotIn pc a [] h w = tt
outside-NotIn pc a (x ∷ xs) h w = elim (Bool-cases (a == x)) [
  | inl e ↦ absurd (h (same e ∙ w.0))
  | inr e ↦ (e, outside-NotIn pc a xs h w.1)
]
  where
    same : a == x ≡ true → pc a ≡ pc x
    same e = ground arith

pub move-AllWaiting :
    (pc : Pcs) (a : ℕ) (v : Pc) (xs : List ℕ)
    → NotIn a xs
    → AllWaiting pc xs
    → AllWaiting (move pc a v) xs
move-AllWaiting pc a v [] h w = tt
move-AllWaiting pc a v (x ∷ xs) h w = (rw h.0 w.0, move-AllWaiting pc a v xs h.1 w.1)

pub move_self : (pc : Pcs) (a : ℕ) (v : Pc) → move pc a v a ≡ v
move_self pc a v = ground arith

pub Apart-nil : (xs : List ℕ) → Apart xs []
Apart-nil [] = tt
Apart-nil (x ∷ xs) = (tt, Apart-nil xs)
