-- ===== src/Config/Items/Rotate.antt =====
-- `PushFront` appends the element and rotates the others behind it.
use aimrt_comm.Base.{◌-◌, ◌≡◌, sym, ap, ◌∙◌, List, [], ◌∷◌, ◌++◌, length, length-append, arith}
use mathlib.Core.List.{append_assoc, append-nil}
use aimrt_comm.Config.Items.{rotate_once, rotate, push_front}

module _ {ℓ} {A : Type ℓ} where
  rotate-append : (xs ys : List A) → rotate (length xs) (xs ++ ys) ≡ ys ++ xs
  unfolding rotate rotate_once
  rotate-append [] ys = sym (append-nil ys)
  rotate-append (x ∷ xs) ys =
      ap (rotate (length xs)) (append_assoc xs ys (x ∷ []))
      ∙ rotate-append xs (ys ++ x ∷ [])
      ∙ append_assoc ys (x ∷ []) xs

  -- After the rounds of the loop the element stands first and the others keep their order.
  pub push_front-eq-cons : (xs : List A) (e : A) → push_front xs e ≡ e ∷ xs
  unfolding push_front
  push_front-eq-cons xs e =
      let rounds : length (xs ++ e ∷ []) - 1 ≡ length xs =
        omega (arith, length-append xs (e ∷ [])) in
      ap (λ n. rotate n (xs ++ e ∷ [])) rounds ∙ rotate-append xs (e ∷ [])
