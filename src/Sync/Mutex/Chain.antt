-- ===== src/Sync/Mutex/Chain.antt =====
-- Linked lists of awaiters, and how they fare when a `next_` is written.
use aimrt_comm.Base.{ℕ, ◌≡◌, false, Option, none, some, List, [], ◌∷◌, ◌++◌, ◌==◌, arith}
use aimrt_comm.Sync.Mutex.{Links, link}

-- From `p` on, the awaiters are these.
abbrev pub Chain : Links → Option ℕ → List ℕ → Type 0
Chain next p [] = p ≡ none
Chain next p (x ∷ xs) = (p ≡ some x) × Chain next (next x) xs

abbrev pub NotIn : ℕ → List ℕ → Type 0
NotIn a [] = Unit
NotIn a (x ∷ xs) = (a == x ≡ false) × NotIn a xs

abbrev pub Distinct : List ℕ → Type 0
Distinct [] = Unit
Distinct (x ∷ xs) = NotIn x xs × Distinct xs

pub link_self : (next : Links) (a : ℕ) (p : Option ℕ) → link next a p a ≡ p
link_self next a p = ground arith

-- A write to an awaiter outside the chain leaves the chain.
pub Chain-link :
    (next : Links) (p q : Option ℕ) (a : ℕ) (xs : List ℕ)
    → NotIn a xs
    → Chain next p xs
    → Chain (link next a q) p xs
Chain-link next p q a [] h c = c
Chain-link next p q a (x ∷ xs) h c = (c.0, rw h.0 (Chain-link next (next x) q a xs h.1 c.1))

pub NotIn-append : (a : ℕ) (xs ys : List ℕ) → NotIn a (xs ++ ys) → NotIn a xs × NotIn a ys
NotIn-append a [] ys h = (tt, h)
NotIn-append a (x ∷ xs) ys h = let (l, r) = NotIn-append a xs ys h.1 in ((h.0, l), r)

pub append-NotIn : (a : ℕ) (xs ys : List ℕ) → NotIn a xs → NotIn a ys → NotIn a (xs ++ ys)
append-NotIn a [] ys h k = k
append-NotIn a (x ∷ xs) ys h k = (h.0, append-NotIn a xs ys h.1 k)

pub eqb_comm : (a b : ℕ) → a == b ≡ false → b == a ≡ false
eqb_comm a b h = ground arith
