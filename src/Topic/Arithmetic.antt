-- ===== src/Topic/Arithmetic.antt =====
-- The floating-point numbers that the statistics are made of: an interface, since their arithmetic
-- is the machine's, and the standard library's folds over it.
use aimrt_comm.Base.{ℕ, Bool, List, [], ◌∷◌, if◌then◌else◌}

pub record Double : Type 1 where
  pub D : Type 0
  -- 0.0, 5, 2e9, 1e9, 1e-9
  pub zero : D
  pub five : D
  pub two_e9 : D
  pub e9 : D
  pub e_minus9 : D
  -- the conversion of an `int64_t` or a `size_t`
  pub of_int : ℕ → D
  pub add : D → D → D
  pub sub : D → D → D
  pub mul : D → D → D
  pub div : D → D → D
  pub one_over : D → D
  -- `std::pow(x, 2)`
  pub square : D → D
  pub sqrt : D → D
  pub less : D → D → Bool

module _ (f : Double) where
  open f use {D, zero, of_int, add, sub, square, less}

  abbrev pub sum_onto : D → List ℕ → D
  sum_onto acc [] = acc
  sum_onto acc (t ∷ ts) = sum_onto (add acc (of_int t)) ts

  -- `std::accumulate` from 0.0
  unfoldable pub sum : List ℕ → D
  sum times = sum_onto zero times

  abbrev pub squares_onto : D → D → List ℕ → D
  squares_onto mean acc [] = acc
  squares_onto mean acc (t ∷ ts) = squares_onto mean (add acc (square (sub (of_int t) mean))) ts

  unfoldable pub squares : D → List ℕ → D
  squares mean times = squares_onto mean zero times

  -- `std::max_element` and `std::min_element` of a sequence that begins with the first argument
  unfoldable pub maximum : D → List ℕ → D
  maximum best [] = best
  maximum best (t ∷ ts) = maximum (if less best (of_int t) then of_int t else best) ts

  unfoldable pub minimum : D → List ℕ → D
  minimum best [] = best
  minimum best (t ∷ ts) = minimum (if less (of_int t) best then of_int t else best) ts
