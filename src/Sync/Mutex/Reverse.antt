-- ===== src/Sync/Mutex/Reverse.antt =====
-- The pointer loop of `Unlock` reverses the list.
use aimrt_comm.Base.{
  ℕ, zero, suc, ◌≤◌, ◌≡◌, refl, ap, ◌∙◌, Option, some, List, [], ◌∷◌, if◌then◌else◌, arith, length,
}
use aimrt_comm.Sync.Mutex.{Links, link, reverse_loop}
use aimrt_comm.Sync.Mutex.Chain.{Chain, NotIn, Distinct, link_self, Chain-link, eqb_comm}

-- `xs` reversed in front of `ys`
abbrev pub reverse_onto : List ℕ → List ℕ → List ℕ
reverse_onto [] ys = ys
reverse_onto (x ∷ xs) ys = reverse_onto xs (x ∷ ys)

-- the awaiters outside both lists keep their links
abbrev pub SameOutside : Links → Links → List ℕ → Type 0
SameOutside next next' xs = (a : ℕ) → NotIn a xs → next' a ≡ next a

abbrev NotInBoth : ℕ → List ℕ → List ℕ → Type 0
NotInBoth a xs ys = NotIn a xs × NotIn a ys

-- no element of the first list in the second
abbrev pub Apart : List ℕ → List ℕ → Type 0
Apart [] ys = Unit
Apart (x ∷ xs) ys = NotIn x ys × Apart xs ys

-- What the loop leaves: some first awaiter from which the chain is the reversed list.
pub record Reversed (links : Links) (xs ys : List ℕ) (result : Option (Links × ℕ)) : Type 0 where
  pub out : Links
  pub head : ℕ
  pub done : result ≡ some (out, head)
  pub chain : Chain out (some head) (reverse_onto xs ys)
  pub outside : SameOutside links out xs

pub Apart-cons : (x : ℕ) (xs ys : List ℕ) → NotIn x xs → Apart xs ys → Apart xs (x ∷ ys)
Apart-cons x [] ys h k = tt
Apart-cons x (z ∷ zs) ys h k = ((eqb_comm x z h.0, k.0), Apart-cons x zs ys h.1 k.1)

-- With a round for each awaiter, the list at `curr` ends reversed in front of the list at `next`.
pub reverse_loop_lem :
    (fuel : ℕ) (links : Links) (next : Option ℕ) (curr : ℕ) (xs ys : List ℕ)
    → suc (length xs) ≤ fuel
    → Distinct (curr ∷ xs)
    → Apart (curr ∷ xs) ys
    → Chain links (links curr) xs
    → Chain links next ys
    → Reversed links (curr ∷ xs) ys (reverse_loop fuel links next curr)
unfolding reverse_loop
reverse_loop_lem zero links next curr xs ys few distinct apart c d = absurd (omega arith)
reverse_loop_lem (suc fuel) links next curr [] ys few distinct apart c d = record {
  out = link links curr next;
  head = curr;
  done = rw (c, reverse_loop) refl;
  chain = (refl, rw (link_self links curr next) (Chain-link links next next curr ys apart.0 d));
  outside = λ a h. ap (λ t. if t then next else links a) (eqb_comm a curr h.0);
}
reverse_loop_lem (suc fuel) links next curr (z ∷ xs) ys few distinct apart c d =
    let links' = link links curr next in
    let z_kept : links' z ≡ links z = ap (λ t. if t then next else links z) distinct.0.0 in
    let r =
      reverse_loop_lem fuel links' (some curr) z xs (curr ∷ ys) (omega arith) distinct.1
        (Apart-cons curr (z ∷ xs) ys distinct.0 apart.1)
        (rw z_kept (Chain-link links (links z) next curr xs distinct.0.1 c.1))
        (refl, rw (link_self links curr next) (Chain-link links next next curr ys apart.0 d)) in
    record {
      out = r.out;
      head = r.head;
      done = rw (c.0, reverse_loop) r.done;
      chain = r.chain;
      outside =
          λ a h. r.outside a h.1 ∙ ap (λ t. if t then next else links a) (eqb_comm a curr h.0);
    }
