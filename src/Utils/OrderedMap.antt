-- ===== src/Utils/OrderedMap.antt =====
-- `std::map` with texts as keys: a list of entries with growing keys.
use aimrt_comm.Base.{
  ◌≡◌, refl, sym, ap, ◌∙◌, inl, inr, Bool, true, false, Option, none, some, List, [], ◌∷◌,
  if◌then◌else◌, Bool-cases, arith,
}
use aimrt_comm.Utils.Text.{Text, text_eq}
use aimrt_comm.Utils.TextOrder.{
  text_lt, text_eq→eq, text_eq_comm, text_lt_trans, text_lt-or_gt, text_lt-ne,
}

module _ {ℓ} {V : Type ℓ} where
  -- `m.find(key)`
  unfoldable pub find : Text → List (Text × V) → Option V
  find key [] = none
  find key ((k, v) ∷ m) = let rest = find key m in if text_eq k key then some v else rest

  -- `m[key] = f(m[key])`, which makes the entry where there is none
  unfoldable pub upsert : Text → (Option V → V) → List (Text × V) → List (Text × V)
  upsert key f [] = (key, f none) ∷ []
  upsert key f ((k, v) ∷ m) =
      let rest = upsert key f m in
      if text_eq k key
      then (k, f (some v)) ∷ m
      else if text_lt key k
      then (key, f none) ∷ (k, v) ∷ m
      else (k, v) ∷ rest

  -- every key comes after the text
  abbrev pub Above : Text → List (Text × V) → Type 0
  Above key [] = Unit {0}
  Above key ((k, v) ∷ m) = (text_lt key k ≡ true) × Above key m

  abbrev pub IsSorted : List (Text × V) → Type 0
  IsSorted [] = Unit {0}
  IsSorted ((k, v) ∷ m) = Above k m × IsSorted m

  Above-trans : (j k : Text) (m : List (Text × V)) → text_lt j k ≡ true → Above k m → Above j m
  Above-trans j k [] h a = tt
  Above-trans j k ((i, v) ∷ m) h (first, rest) =
      (text_lt_trans j k i h first, Above-trans j k m h rest)

  find-Above : (key : Text) (m : List (Text × V)) → Above key m → find key m ≡ none
  unfolding find
  find-Above key [] a = refl
  find-Above key ((k, v) ∷ m) (first, rest) =
      rw (text_eq_comm k key ∙ text_lt-ne key k first) (find-Above key m rest)

  Above-upsert :
      (j key : Text) (f : Option V → V) (m : List (Text × V))
      → text_lt j key ≡ true
      → Above j m
      → Above j (upsert key f m)
  unfolding upsert
  Above-upsert j key f [] h a = (h, tt)
  Above-upsert j key f ((k, v) ∷ m) h (first, rest) = elim (Bool-cases (text_eq k key)) [
    | inl e ↦ rw e (first, rest)
    | inr e ↦ rw e (elim (Bool-cases (text_lt key k)) [
      | inl lt ↦ rw lt (h, (first, rest))
      | inr ge ↦ rw ge (first, Above-upsert j key f m h rest)
    ])
  ]

  pub upsert-IsSorted :
      (key : Text) (f : Option V → V) (m : List (Text × V)) → IsSorted m → IsSorted (upsert key f m)
  unfolding upsert
  upsert-IsSorted key f [] s = (tt, tt)
  upsert-IsSorted key f ((k, v) ∷ m) (above, s) = elim (Bool-cases (text_eq k key)) [
    | inl e ↦ rw e (above, s)
    | inr e ↦ rw e (elim (Bool-cases (text_lt key k)) [
      | inl lt ↦ rw lt ((lt, Above-trans key k m lt above), (above, s))
      | inr ge ↦ rw ge (
        Above-upsert k key f m (text_lt-or_gt key k (text_eq_comm key k ∙ e) ge) above,
        upsert-IsSorted key f m s,
      )
    ])
  ]

  -- the entry of the key is made from the one before, and the others stay
  pub find-upsert :
      (j key : Text) (f : Option V → V) (m : List (Text × V))
      → IsSorted m
      → find j (upsert key f m) ≡ (if text_eq key j then some (f (find key m)) else find j m)
  unfolding find upsert
  find-upsert j key f [] s = refl
  find-upsert j key f ((k, v) ∷ m) (above, s) = elim (Bool-cases (text_eq k key)) [
    | inl e ↦ rw e (same_key (text_eq→eq k key e))
    | inr e ↦ rw e (elim (Bool-cases (text_lt key k)) [
      | inl lt ↦
          let fresh : find key m ≡ none = find-Above key m (Above-trans key k m lt above) in
          rw lt (rw fresh refl)
      | inr ge ↦ rw ge (other_key e (find-upsert j key f m s) (text_eq k j) refl)
    ])
  ]
    where
      same_key :
          k ≡ key
          → (if text_eq k j then some (f (some v)) else find j m) ≡ (
              if text_eq key j
              then some (f (some v))
              else (if text_eq k j then some v else find j m))
      same_key same = ground (arith, ap (λ t. text_eq t j) same)

      other_key :
          text_eq k key ≡ false
          → find j (upsert key f m) ≡ (if text_eq key j then some (f (find key m)) else find j m)
          → (b : Bool) → text_eq k j ≡ b
          → (if b then some v else find j (upsert key f m))
            ≡ (if text_eq key j then some (f (find key m)) else (if b then some v else find j m))
      other_key ne ih true e =
          let apart : text_eq key j ≡ false =
            ap (text_eq key) (sym (text_eq→eq k j e)) ∙ text_eq_comm key k ∙ ne in
          rw apart refl
      other_key ne ih false e = ih
