-- ===== src/Utils/Text.antt =====
-- Texts as lists of bytes, and `utils::SplitTrim` (src/utils/string.cpp).
use Prim.Native.Char.{code}
use aimrt_comm.Base.{
  ℕ, zero, suc, ◌+◌, ◌-◌, String, Bool, true, false, ◌&&◌, ◌||◌, Option, none, some, List, [], ◌∷◌,
  ◌==◌, leb, if◌then◌else◌,
}

-- `std::string`, byte by byte
abbrev pub Text : Type 0
Text = List ℕ

abbrev pub codes : String → Text
codes String.[] = []
codes (String.◌∷◌ c s) = code c ∷ codes s

unfoldable pub text_eq : Text → Text → Bool
text_eq [] [] = true
text_eq [] (d ∷ t) = false
text_eq (c ∷ s) [] = false
text_eq (c ∷ s) (d ∷ t) = c == d && text_eq s t

-- `s.starts_with(p)` with `s.substr(p.length())` where it holds
unfoldable pub strip_prefix : Text → Text → Option Text
strip_prefix [] s = some s
strip_prefix (c ∷ p) [] = none
strip_prefix (c ∷ p) (d ∷ s) = let rest = strip_prefix p s in if c == d then rest else none

-- the characters of " \t\n\v\f\r"
unfoldable pub is_space : ℕ → Bool
is_space c = c == 32 || (leb 9 c && leb c 13)

unfoldable pub find_first_not_of : (ℕ → Bool) → Text → Option ℕ
find_first_not_of p [] = none
find_first_not_of p (c ∷ s) = elim (p c) [
  | false ↦ some 0
  | true ↦ elim (find_first_not_of p s) [ none ↦ none | some i ↦ some (suc i) ]
]

unfoldable pub find_last_not_of : (ℕ → Bool) → Text → Option ℕ
find_last_not_of p [] = none
find_last_not_of p (c ∷ s) = elim (find_last_not_of p s) [
  | some i ↦ some (suc i)
  | none ↦ if p c then none else some 0
]

unfoldable pub substr : Text → ℕ → ℕ → Text
substr [] start n = []
substr (c ∷ s) (suc start) n = substr s start n
substr (c ∷ s) zero zero = []
substr (c ∷ s) zero (suc n) = c ∷ substr s zero n

-- the items that `std::getline` reads from a stream over the text, up to its end
abbrev pub push_head : ℕ → List Text → List Text
push_head c [] = (c ∷ []) ∷ []
push_head c (l ∷ ls) = (c ∷ l) ∷ ls

unfoldable pub getlines : ℕ → Text → List Text
getlines sep [] = []
getlines sep (c ∷ s) = let rest = getlines sep s in if c == sep then [] ∷ rest else push_head c rest

-- one round of the loop: the item without the blanks round it, `none` where it is skipped
unfoldable pub trim_item : Text → Option Text
unfolding find_first_not_of find_last_not_of substr is_space
trim_item item = elim (find_first_not_of is_space item) [
  | none ↦ none
  | some start ↦ elim (find_last_not_of is_space item) [
    | none ↦ none
    | some last ↦ some (substr item start (last - start + 1))
  ]
]

unfoldable pub trim_items : List Text → List Text
unfolding trim_item
trim_items [] = []
trim_items (l ∷ ls) = elim (trim_item l) [ none ↦ trim_items ls | some w ↦ w ∷ trim_items ls ]

unfoldable pub split_trim : Text → ℕ → List Text
unfolding trim_items getlines
split_trim s separator = trim_items (getlines separator s)
