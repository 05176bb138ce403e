-- ===== src/Module/Collect/Resources.antt =====
-- Which methods are recorded for which names.
use aimrt_comm.Base.{
  ℕ, ◌≡◌, refl, sym, ap, ◌∙◌, ◌⊎◌, inl, inr, Bool, true, false, ◌&&◌, ◌==◌, Option, none, some,
  List, [], ◌∷◌, if◌then◌else◌, Bool-cases, any, arith,
}
use aimrt_comm.Utils.Text.{Text, text_eq}
use aimrt_comm.Utils.TextOrder.{text_eq→eq}
use aimrt_comm.Utils.OrderedMap.{find, upsert, IsSorted, upsert-IsSorted, find-upsert}
use aimrt_comm.Module.Declare.{Resource}
use aimrt_comm.Module.Collect.{insert_type, uses, with_type, Types, record_types, record_resources}

abbrev pub elem : ℕ → List ℕ → Bool
elem t [] = false
elem t (u ∷ us) = let rest = elem t us in if u == t then true else rest

-- the type is recorded for the name
abbrev pub among : ℕ → Option (List ℕ) → Bool
among t none = false
among t (some types) = elem t types

unfoldable pub lists : Text → ℕ → Types → Bool
lists name t m = among t (find name m)

-- a resource of the name uses the type
unfoldable pub declares : List ℕ → Text → ℕ → Resource → Bool
declares types name t src = text_eq src.name name && (elem t types && uses t src.methods)

elem-insert_type :
    (t type : ℕ) (ts : List ℕ)
    → elem t (insert_type type ts) ≡ (if type == t then true else elem t ts)
unfolding insert_type
elem-insert_type t type [] = refl
elem-insert_type t type (u ∷ us) = ground (arith, elem-insert_type t type us)

among-with_type :
    (t type : ℕ) (o : Option (List ℕ))
    → among t (some (with_type type o)) ≡ (if type == t then true else among t o)
among-with_type t type none = elem-insert_type t type []
among-with_type t type (some types) = elem-insert_type t type types

-- membership after one type of a resource
abbrev either : Bool → Bool → Bool
either a b = if a then true else b

lists-upsert :
    (name key : Text) (t type : ℕ) (m : Types)
    → IsSorted m
    → lists name t (upsert key (with_type type) m)
      ≡ either (text_eq key name && (type == t)) (lists name t m)
unfolding lists
lists-upsert name key t type m s =
    ap (among t) (find-upsert name key (with_type type) m s)
    ∙ by_key (Bool-cases (text_eq key name))
  where
    by_key :
        (text_eq key name ≡ true) ⊎ (text_eq key name ≡ false)
        → among t (if text_eq key name then some (with_type type (find key m)) else find name m)
          ≡ either (text_eq key name && (type == t)) (among t (find name m))
    by_key (inl e) = rw e (
        among-with_type t type (find key m)
        ∙ ap (λ k. either (type == t) (among t (find k m))) (text_eq→eq key name e))
    by_key (inr e) = rw e refl

record_one-IsSorted :
    (src : Resource) (type : ℕ) (m : Types)
    → IsSorted m
    → IsSorted (if uses type src.methods then upsert src.name (with_type type) m else m)
record_one-IsSorted src type m s = elim (Bool-cases (uses type src.methods)) [
  | inl e ↦ rw e (upsert-IsSorted src.name (with_type type) m s)
  | inr e ↦ rw e s
]

lists-record_one :
    (name : Text) (t type : ℕ) (src : Resource) (m : Types)
    → IsSorted m
    → lists name t (if uses type src.methods then upsert src.name (with_type type) m else m)
      ≡ either (text_eq src.name name && ((type == t) && uses t src.methods)) (lists name t m)
lists-record_one name t type src m s = elim (Bool-cases (uses type src.methods)) [
  | inl e ↦ rw e (lists-upsert name src.name t type m s ∙ by_type e)
  | inr e ↦ rw e (by_type' e)
]
  where
    same_type : (type == t) ≡ true → uses type src.methods ≡ uses t src.methods
    same_type e = let same : type ≡ t = ground arith in ap (λ u. uses u src.methods) same

    by_type :
        uses type src.methods ≡ true
        → either (text_eq src.name name && (type == t)) (lists name t m)
          ≡ either (text_eq src.name name && ((type == t) && uses t src.methods)) (lists name t m)
    by_type e = elim (Bool-cases (type == t)) [
      | inl same ↦
          (let used : uses t src.methods ≡ true = sym (same_type same) ∙ e in rw (same, used) refl)
      | inr other ↦ rw other refl
    ]

    by_type' :
        uses type src.methods ≡ false
        → lists name t m
          ≡ either (text_eq src.name name && ((type == t) && uses t src.methods)) (lists name t m)
    by_type' e = elim (Bool-cases (type == t)) [
      | inl same ↦
          (let unused : uses t src.methods ≡ false = sym (same_type same) ∙ e in
            rw (same, unused) (ground arith))
      | inr other ↦ rw other (ground arith)
    ]

pub record_types-IsSorted :
    (src : Resource) (types : List ℕ) (m : Types) → IsSorted m → IsSorted (record_types src types m)
unfolding record_types
record_types-IsSorted src [] m s = s
record_types-IsSorted src (type ∷ types) m s =
    record_types-IsSorted src types _ (record_one-IsSorted src type m s)

regroup :
    (n e t u l : Bool)
    → either (n && (e && u)) (either (n && (t && u)) l)
      ≡ either (n && ((if t then true else e) && u)) l
regroup n e t u l = ground arith

lists-record_types :
    (name : Text) (t : ℕ) (src : Resource) (types : List ℕ) (m : Types)
    → IsSorted m
    → lists name t (record_types src types m) ≡ either (declares types name t src) (lists name t m)
unfolding record_types declares
lists-record_types name t src [] m s = ground arith
lists-record_types name t src (type ∷ types) m s =
    lists-record_types name t src types _ (record_one-IsSorted src type m s)
    ∙ ap (either (text_eq src.name name && (elem t types && uses t src.methods)))
        (lists-record_one name t type src m s)
    ∙ regroup (text_eq src.name name) (elem t types) (type == t) (uses t src.methods)
        (lists name t m)

pub record_resources-IsSorted :
    (types : List ℕ) (srcs : List Resource) (m : Types)
    → IsSorted m
    → IsSorted (record_resources types srcs m)
unfolding record_resources
record_resources-IsSorted types [] m s = s
record_resources-IsSorted types (src ∷ srcs) m s =
    record_resources-IsSorted types srcs _ (record_types-IsSorted src types m s)

-- What is recorded after a module: what was, and the methods of the resources of the module.
pub lists-record_resources :
    (name : Text) (t : ℕ) (types : List ℕ) (srcs : List Resource) (m : Types)
    → IsSorted m
    → lists name t (record_resources types srcs m)
      ≡ (if any (declares types name t) srcs then true else lists name t m)
unfolding record_resources any
lists-record_resources name t types [] m s = refl
lists-record_resources name t types (src ∷ srcs) m s =
    lists-record_resources name t types srcs _ (record_types-IsSorted src types m s)
    ∙ ap (either (any (declares types name t) srcs)) (lists-record_types name t src types m s)
    ∙ ground arith
