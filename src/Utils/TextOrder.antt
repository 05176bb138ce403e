-- ===== src/Utils/TextOrder.antt =====
-- The order of `std::string`, byte by byte, by which `std::map` keeps its keys.
use aimrt_comm.Base.{◌≡◌, refl, Bool, true, false, [], ◌∷◌, ◌==◌, ltb, if◌then◌else◌, arith}
use aimrt_comm.Utils.Text.{Text, text_eq}

unfoldable pub text_lt : Text → Text → Bool
text_lt [] [] = false
text_lt [] (d ∷ t) = true
text_lt (c ∷ s) [] = false
text_lt (c ∷ s) (d ∷ t) =
    let rest = text_lt s t in if ltb c d then true else if c == d then rest else false

pub text_eq_refl : (s : Text) → text_eq s s ≡ true
unfolding text_eq
text_eq_refl [] = refl
text_eq_refl (c ∷ s) = ground (arith, text_eq_refl s)

pub text_eq→eq : (s t : Text) → text_eq s t ≡ true → s ≡ t
unfolding text_eq
text_eq→eq [] [] h = refl
text_eq→eq [] (d ∷ t) h = cc
text_eq→eq (c ∷ s) [] h = cc
text_eq→eq (c ∷ s) (d ∷ t) h = ground (arith, text_eq→eq s t)

pub text_lt_irrefl : (s : Text) → text_lt s s ≡ false
unfolding text_lt
text_lt_irrefl [] = refl
text_lt_irrefl (c ∷ s) = ground (arith, text_lt_irrefl s)

pub text_lt_trans : (s t u : Text) → text_lt s t ≡ true → text_lt t u ≡ true → text_lt s u ≡ true
unfolding text_lt
text_lt_trans [] [] u h k = cc
text_lt_trans [] (d ∷ t) [] h k = cc
text_lt_trans [] (d ∷ t) (e ∷ u) h k = refl
text_lt_trans (c ∷ s) [] u h k = cc
text_lt_trans (c ∷ s) (d ∷ t) [] h k = cc
text_lt_trans (c ∷ s) (d ∷ t) (e ∷ u) h k = ground (arith, text_lt_trans s t u)

pub text_lt-or_gt : (s t : Text) → text_eq s t ≡ false → text_lt s t ≡ false → text_lt t s ≡ true
unfolding text_lt text_eq
text_lt-or_gt [] [] h k = cc
text_lt-or_gt [] (d ∷ t) h k = cc
text_lt-or_gt (c ∷ s) [] h k = refl
text_lt-or_gt (c ∷ s) (d ∷ t) h k = ground (arith, text_lt-or_gt s t)

pub text_lt-ne : (s t : Text) → text_lt s t ≡ true → text_eq s t ≡ false
unfolding text_lt text_eq
text_lt-ne [] [] h = cc
text_lt-ne [] (d ∷ t) h = refl
text_lt-ne (c ∷ s) [] h = cc
text_lt-ne (c ∷ s) (d ∷ t) h = ground (arith, text_lt-ne s t)

pub text_eq_comm : (s t : Text) → text_eq s t ≡ text_eq t s
unfolding text_eq
text_eq_comm [] [] = refl
text_eq_comm [] (d ∷ t) = refl
text_eq_comm (c ∷ s) [] = refl
text_eq_comm (c ∷ s) (d ∷ t) = ground (arith, text_eq_comm s t)
