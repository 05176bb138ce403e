-- ===== src/Sync/Mutex/Queue.antt =====
-- What a client relies on: an owner and a queue of waiting threads, first come first served.
pub mod Relation
pub mod Enter
pub mod Pop
pub mod Load
pub mod Exchange
pub mod Refine
use aimrt_comm.Base.{ℕ, ◌≡◌, Option, none, some, List, [], ◌∷◌, ◌++◌}

pub record Queue : Type 0 where
  pub owner : Option ℕ
  pub waiting : List ℕ

pub data QueueStep (q : Queue) : Queue → Type 0 where
  -- steps that a client cannot see
  stay : QueueStep q q
  enter :
      (a : ℕ)
      → q.owner ≡ none
      → q.waiting ≡ []
      → QueueStep q (record { owner = some a; waiting = [] })
  wait : (a o : ℕ) → q.owner ≡ some o → QueueStep q (record q { waiting = q.waiting ++ a ∷ [] })
  hand_over :
      (a o : ℕ) (rest : List ℕ)
      → q.owner ≡ some o
      → q.waiting ≡ a ∷ rest
      → QueueStep q (record { owner = some a; waiting = rest })
  leave :
      (o : ℕ)
      → q.owner ≡ some o
      → q.waiting ≡ []
      → QueueStep q (record { owner = none; waiting = [] })
