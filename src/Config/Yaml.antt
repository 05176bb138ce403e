-- ===== src/Config/Yaml.antt =====
-- The YAML library that the configuration processor calls, as an interface: a `YAML::Node` is a
-- value of an abstract type with the operations that the processor uses and their documented
-- behaviour. An operation that changes a node through a reference returns the node after it.
pub mod Tree
use Prim.Native.Nat.{ℕ, suc, ◌+◌, ◌≤◌}
use Prim.Native.String.{String}
use mathlib.Core.Path.{◌≡◌}
use mathlib.Core.Bool.{Bool, true, false}
use mathlib.Core.Option.{Option}
use mathlib.Core.List.{List, [], ◌∷◌}
use aimrt_comm.Base.{if◌then◌else◌, str_eq}

-- `YAML::NodeType`
pub data Kind : Type 0 where
  undefined null scalar sequence map : Kind

abbrev pub is_map : Kind → Bool
is_map map = true
is_map _ = false

abbrev pub is_sequence : Kind → Bool
is_sequence sequence = true
is_sequence _ = false

abbrev pub is_scalar : Kind → Bool
is_scalar scalar = true
is_scalar _ = false

-- `not node.IsDefined() or node.IsNull()`, of the kind
abbrev pub is_absent : Kind → Bool
is_absent undefined = true
is_absent null = true
is_absent _ = false

-- `IsDefined()`, of the kind
abbrev pub is_defined_kind : Kind → Bool
is_defined_kind undefined = false
is_defined_kind _ = true

-- How many nodes a list of fields holds, each field counted with what is below it.
abbrev pub total_size : {N : Type 0} → (N → ℕ) → List (String × N) → ℕ
total_size size [] = 0
total_size size ((k, n) ∷ es) = suc (size n) + total_size size es

pub record Yaml : Type 1 where
  pub Node : Type 0
  -- `Type()`, `Tag()`
  pub kind : Node → Kind
  pub tag : Node → String
  -- a default-constructed node
  pub absent : Node
  -- `as<std::string>()`; `none` is the exception
  pub text? : Node → Option String
  -- iteration over a sequence; over a map, with the keys as texts
  pub items : Node → List Node
  pub entries : Node → List (String × Node)
  -- `n[k]` where `n` is no scalar; `n[k] = v`, also the entry that a bare `n[k]` makes in a map
  pub field : Node → String → Node
  pub set_field : Node → String → Node → Node
  -- the node after `push_back` and `remove` have made its elements these
  pub set_items : Node → List Node → Node
  -- how many nodes are below
  pub size : Node → ℕ
  pub kind-absent : kind absent ≡ null
  pub field-set_field :
      (n : Node) (k j : String) (v : Node)
      → kind n ≡ map
      → field (set_field n k v) j ≡ (if str_eq k j then v else field n j)
  pub set_field-set_field :
      (n : Node) (k : String) (v w : Node)
      → kind n ≡ map
      → set_field (set_field n k v) k w ≡ set_field n k w
  pub kind-set_field :
      (n : Node) (k : String) (v : Node) → kind n ≡ map → kind (set_field n k v) ≡ map
  pub items-set_items :
      (n : Node) (xs : List Node) → kind n ≡ sequence → items (set_items n xs) ≡ xs
  pub kind-set_items :
      (n : Node) (xs : List Node) → kind n ≡ sequence → kind (set_items n xs) ≡ sequence
  pub size-entries : (n : Node) → kind n ≡ map → total_size size (entries n) ≤ size n
