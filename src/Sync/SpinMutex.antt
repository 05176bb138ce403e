-- ===== src/Sync/SpinMutex.antt =====
-- `sync::SpinMutex` (src/sync/spin_mutex.{h,cpp}): any number of threads, each step one access of
-- `locked_`.
use aimrt_comm.Base.{ℕ, ◌-◌, ◌≡◌, refl, sym, ◌∙◌, Bool, true, false, ◌==◌, if◌then◌else◌, arith}

-- outside; in the inner loop of `Lock` with a counter; about to try again; holding the lock
pub data Pc : Type 0 where
  outside holding trying : Pc
  spinning : ℕ → Pc

pub record State : Type 0 where
  pub locked : Bool
  pub pc : ℕ → Pc

abbrev pub move : (ℕ → Pc) → ℕ → Pc → ℕ → Pc
move pc a v j = if a == j then v else pc j

-- `locked_.exchange(true) == false`, with the value before and after
unfoldable pub try_lock : Bool → Bool × Bool
try_lock old = (if old then false else true, true)

-- one round of the inner loop: `if (--counter < 0)` yields and starts the count anew; a counter
-- here is never negative, since it is tested before it would be
unfoldable pub spin : ℕ → ℕ → ℕ
spin spin_counter counter = if counter == 0 then spin_counter else counter - 1

pub data Step (spin_counter : ℕ) (s : State) : State → Type 0 where
  -- `TryLock` as such, or the test of the outer loop of `Lock`
  lock_call :
      (a : ℕ)
      → s.pc a ≡ outside
      → Step spin_counter s (record { locked = s.locked; pc = move s.pc a trying })
  wins :
      (a : ℕ)
      → s.pc a ≡ trying
      → (try_lock s.locked).0 ≡ true
      → Step spin_counter s (record { locked = (try_lock s.locked).1; pc = move s.pc a holding })
  loses :
      (a : ℕ)
      → s.pc a ≡ trying
      → (try_lock s.locked).0 ≡ false
      → Step spin_counter s
          (record { locked = (try_lock s.locked).1; pc = move s.pc a (spinning spin_counter) })
  gives_up :
      (a : ℕ)
      → s.pc a ≡ trying
      → (try_lock s.locked).0 ≡ false
      → Step spin_counter s (record { locked = (try_lock s.locked).1; pc = move s.pc a outside })
  spins :
      (a n : ℕ)
      → s.pc a ≡ spinning n
      → s.locked ≡ true
      → Step spin_counter s
          (record { locked = s.locked; pc = move s.pc a (spinning (spin spin_counter n)) })
  sees_free :
      (a n : ℕ)
      → s.pc a ≡ spinning n
      → s.locked ≡ false
      → Step spin_counter s (record { locked = s.locked; pc = move s.pc a trying })
  unlock :
      (a : ℕ)
      → s.pc a ≡ holding
      → Step spin_counter s (record { locked = false; pc = move s.pc a outside })

abbrev pub fresh : State
fresh = record { locked = false; pc = λ _. outside }

pub data Reach (spin_counter : ℕ) : State → Type 0 where
  start : Reach spin_counter fresh
  later : {s t : State} → Reach spin_counter s → Step spin_counter s t → Reach spin_counter t

abbrev pub is_holding : Pc → Bool
is_holding holding = true
is_holding _ = false

-- One holder at most, and the flag is up while there is one.
record Guarded (s : State) : Type 0 where
  up : (i : ℕ) → is_holding (s.pc i) ≡ true → s.locked ≡ true
  one : (i j : ℕ) → is_holding (s.pc i) ≡ true → is_holding (s.pc j) ≡ true → i ≡ j

-- a thread that moves to where it does not hold the lock, the flag staying or going up
moves_aside :
    (s : State) (a : ℕ) (p : Pc) (l : Bool)
    → Guarded s
    → is_holding p ≡ false
    → (s.locked ≡ true → l ≡ true)
    → Guarded (record { locked = l; pc = move s.pc a p })
moves_aside s a p l g aside keeps = record {
  up = λ i h. keeps (g.up i (still i h));
  one = λ i j h k. g.one i j (still i h) (still j k);
}
  where
    still : (i : ℕ) → is_holding (move s.pc a p i) ≡ true → is_holding (s.pc i) ≡ true
    still i h = ground arith

wins-Guarded :
    (s : State) (a : ℕ)
    → Guarded s
    → (try_lock s.locked).0 ≡ true
    → Guarded (record { locked = (try_lock s.locked).1; pc = move s.pc a holding })
unfolding try_lock
wins-Guarded s a g won = record { up = λ i h. refl; one = λ i j h k. sym (only i h) ∙ only j k }
  where
    only : (i : ℕ) → is_holding (move s.pc a holding i) ≡ true → a ≡ i
    only i h = ground (arith, g.up i)

unlock-Guarded :
    (s : State) (a : ℕ)
    → Guarded s
    → s.pc a ≡ holding
    → Guarded (record { locked = false; pc = move s.pc a outside })
unlock-Guarded s a g at_a = record {
  up = λ i h. absurd (none_left i h);
  one = λ i j h k. absurd (none_left i h);
}
  where
    none_left : (i : ℕ) → is_holding (move s.pc a outside i) ≡ true → ⊥
    none_left i h = ground (arith, g.one a i)

Step-Guarded : (c : ℕ) (s t : State) → Step c s t → Guarded s → Guarded t
Step-Guarded c s _ (lock_call a at_a) g = moves_aside s a trying s.locked g refl (λ h. h)
Step-Guarded c s _ (wins a at_a won) g = wins-Guarded s a g won
Step-Guarded c s _ (loses a at_a lost) g =
    moves_aside s a (spinning c) _ g refl (λ h. unfold try_lock in refl)
Step-Guarded c s _ (gives_up a at_a lost) g =
    moves_aside s a outside _ g refl (λ h. unfold try_lock in refl)
Step-Guarded c s _ (spins a n at_a up) g = moves_aside s a _ s.locked g refl (λ h. h)
Step-Guarded c s _ (sees_free a n at_a free) g = moves_aside s a trying s.locked g refl (λ h. h)
Step-Guarded c s _ (unlock a at_a) g = unlock-Guarded s a g at_a

Reach-Guarded : (c : ℕ) (s : State) → Reach c s → Guarded s
Reach-Guarded c _ start = record { up = λ i h. cc; one = λ i j h k. cc }
Reach-Guarded c _ (later {s = s} {t = t} r st) = Step-Guarded c s t st (Reach-Guarded c s r)

-- In every state that threads reach from a new mutex, whatever the spin counter, at most one
-- thread holds the lock, and while one does `locked_` is set.
pub spin_mutual_exclusion :
    (c : ℕ) (s : State) (i j : ℕ)
    → Reach c s
    → is_holding (s.pc i) ≡ true
    → is_holding (s.pc j) ≡ true
    → (i ≡ j) × (s.locked ≡ true)
spin_mutual_exclusion c s i j r at_i at_j =
    let g = Reach-Guarded c s r in (g.one i j at_i at_j, g.up i at_i)
