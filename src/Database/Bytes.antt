-- ===== src/Database/Bytes.antt =====
-- Byte buffers, and reads of a fixed size.
use aimrt_comm.Base.{
  ℕ, zero, suc, ◌<◌, ◌≡◌, refl, ap, Option, none, some, List, [], ◌∷◌, ◌++◌, length, arith,
}

abbrev pub Bytes : Type 0
Bytes = List ℕ

module _ {ℓ} {A : Type ℓ} where
  abbrev pub take : ℕ → List A → List A
  take zero xs = []
  take (suc n) [] = []
  take (suc n) (x ∷ xs) = x ∷ take n xs

  abbrev pub drop : ℕ → List A → List A
  drop zero xs = xs
  drop (suc n) [] = []
  drop (suc n) (x ∷ xs) = drop n xs

  pub take-append-drop : (n : ℕ) (xs : List A) → take n xs ++ drop n xs ≡ xs
  take-append-drop zero xs = refl
  take-append-drop (suc n) [] = refl
  take-append-drop (suc n) (x ∷ xs) = ap (λ l. x ∷ l) (take-append-drop n xs)

-- `f.read(p, n)` on what is left of a file: the bytes and the rest, `none` where there are fewer
unfoldable pub read_exactly : ℕ → Bytes → Option (Bytes × Bytes)
read_exactly zero bytes = some ([], bytes)
read_exactly (suc n) [] = none
read_exactly (suc n) (b ∷ bytes) = elim (read_exactly n bytes) [
  | none ↦ none
  | some (got, rest) ↦ some (b ∷ got, rest)
]

pub read_exactly-append :
    (n : ℕ) (field rest : Bytes)
    → length field ≡ n
    → read_exactly n (field ++ rest) ≡ some (field, rest)
unfolding read_exactly
read_exactly-append zero [] rest h = refl
read_exactly-append zero (b ∷ field) rest h = absurd (omega arith)
read_exactly-append (suc n) [] rest h = absurd (omega arith)
read_exactly-append (suc n) (b ∷ field) rest h =
    rw (read_exactly-append n field rest (omega arith)) refl

pub read_exactly-short : (n : ℕ) (bytes : Bytes) → length bytes < n → read_exactly n bytes ≡ none
unfolding read_exactly
read_exactly-short zero bytes h = absurd (omega arith)
read_exactly-short (suc n) [] h = refl
read_exactly-short (suc n) (b ∷ bytes) h = rw (read_exactly-short n bytes (omega arith)) refl
