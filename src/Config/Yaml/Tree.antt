-- ===== src/Config/Yaml/Tree.antt =====
-- A YAML document as a tree: a concrete `Yaml`, which shows that the interface can be met and on
-- which the tests run.
use aimrt_comm.Base.{
  ℕ, suc, ◌+◌, ◌≤◌, String, ◌≡◌, refl, ap, Option, none, some, List, [], ◌∷◌, if◌then◌else◌, str_eq,
  arith, eq_iff, str_eq_refl, Bool-cases, inl, inr,
}
use aimrt_comm.Config.Yaml.{Kind, Yaml, total_size}

mutual
  pub data Tree : Type 0 where
    missing : Tree
    nothing : Tree
    leaf : String → String → Tree
    seq : String → Trees → Tree
    obj : String → Fields → Tree

  pub data Trees : Type 0 where
    nil : Trees
    cons : Tree → Trees → Trees

  pub data Fields : Type 0 where
    end : Fields
    entry : String → Tree → Fields → Fields

abbrev tree_kind : Tree → Kind
tree_kind missing = Kind.undefined
tree_kind nothing = Kind.null
tree_kind (leaf t s) = Kind.scalar
tree_kind (seq t xs) = Kind.sequence
tree_kind (obj t fs) = Kind.map

abbrev tree_tag : Tree → String
tree_tag missing = ""
tree_tag nothing = ""
tree_tag (leaf t s) = t
tree_tag (seq t xs) = t
tree_tag (obj t fs) = t

abbrev tree_text : Tree → Option String
tree_text nothing = some "null"
tree_text (leaf t s) = some s
tree_text _ = none

abbrev trees_list : Trees → List Tree
trees_list nil = []
trees_list (cons x xs) = x ∷ trees_list xs

abbrev list_trees : List Tree → Trees
list_trees [] = nil
list_trees (x ∷ xs) = cons x (list_trees xs)

abbrev tree_items : Tree → List Tree
tree_items (seq t xs) = trees_list xs
tree_items _ = []

-- iteration passes over an entry that is not defined
abbrev defined_entry : String → Tree → List (String × Tree) → List (String × Tree)
defined_entry k missing rest = rest
defined_entry k v rest = (k, v) ∷ rest

abbrev fields_list : Fields → List (String × Tree)
fields_list end = []
fields_list (entry k v fs) = defined_entry k v (fields_list fs)

abbrev tree_entries : Tree → List (String × Tree)
tree_entries (obj t fs) = fields_list fs
tree_entries _ = []

abbrev find_field : Fields → String → Tree
find_field end j = missing
find_field (entry k v fs) j = let rest = find_field fs j in if str_eq k j then v else rest

abbrev put_field : Fields → String → Tree → Fields
put_field end j v = entry j v end
put_field (entry k u fs) j v =
    let rest = put_field fs j v in if str_eq k j then entry k v fs else entry k u rest

abbrev tree_field : Tree → String → Tree
tree_field (obj t fs) j = find_field fs j
tree_field _ j = missing

abbrev tree_set_field : Tree → String → Tree → Tree
tree_set_field (obj t fs) j v = obj t (put_field fs j v)
tree_set_field missing j v = obj "" (entry j v end)
tree_set_field nothing j v = obj "" (entry j v end)
tree_set_field n j v = n

abbrev tree_set_items : Tree → List Tree → Tree
tree_set_items (seq t xs) ys = seq t (list_trees ys)
tree_set_items n ys = n

abbrev mutual
  tree_size : Tree → ℕ
  tree_size missing = 0
  tree_size nothing = 0
  tree_size (leaf t s) = 0
  tree_size (seq t xs) = 0
  tree_size (obj t fs) = fields_size fs

  fields_size : Fields → ℕ
  fields_size end = 0
  fields_size (entry k v fs) = suc (tree_size v) + fields_size fs

find-put :
    (fs : Fields) (k j : String) (v : Tree)
    → find_field (put_field fs k v) j ≡ (if str_eq k j then v else find_field fs j)
find-put end k j v = refl
find-put (entry i u fs) k j v =
    ground (arith, find-put fs k j v, eq_iff i k, eq_iff i j, eq_iff k j)

put-put :
    (fs : Fields) (k : String) (v w : Tree) → put_field (put_field fs k v) k w ≡ put_field fs k w
put-put end k v w = rw str_eq_refl refl
put-put (entry i u fs) k v w = elim (Bool-cases (str_eq i k)) [
  | inl e ↦ rw e (rw e refl)
  | inr e ↦ rw e (rw e (ap (entry i u) (put-put fs k v w)))
]

pub field-set :
    (n : Tree) (k j : String) (v : Tree)
    → tree_kind n ≡ Kind.map
    → tree_field (tree_set_field n k v) j ≡ (if str_eq k j then v else tree_field n j)
field-set (obj t fs) k j v h = find-put fs k j v
field-set missing k j v h = cc
field-set nothing k j v h = cc
field-set (leaf t s) k j v h = cc
field-set (seq t xs) k j v h = cc

pub set-set :
    (n : Tree) (k : String) (v w : Tree)
    → tree_kind n ≡ Kind.map
    → tree_set_field (tree_set_field n k v) k w ≡ tree_set_field n k w
set-set (obj t fs) k v w h = ap (obj t) (put-put fs k v w)
set-set missing k v w h = cc
set-set nothing k v w h = cc
set-set (leaf t s) k v w h = cc
set-set (seq t xs) k v w h = cc

pub kind-set :
    (n : Tree) (k : String) (v : Tree)
    → tree_kind n ≡ Kind.map
    → tree_kind (tree_set_field n k v) ≡ Kind.map
kind-set (obj t fs) k v h = refl
kind-set missing k v h = refl
kind-set nothing k v h = refl
kind-set (leaf t s) k v h = h
kind-set (seq t xs) k v h = h

list-list : (xs : List Tree) → trees_list (list_trees xs) ≡ xs
list-list [] = refl
list-list (x ∷ xs) = ap (λ r. x ∷ r) (list-list xs)

pub items-set :
    (n : Tree) (xs : List Tree)
    → tree_kind n ≡ Kind.sequence
    → tree_items (tree_set_items n xs) ≡ xs
items-set (seq t ys) xs h = list-list xs
items-set missing xs h = cc
items-set nothing xs h = cc
items-set (leaf t s) xs h = cc
items-set (obj t fs) xs h = cc

pub kind-items :
    (n : Tree) (xs : List Tree)
    → tree_kind n ≡ Kind.sequence
    → tree_kind (tree_set_items n xs) ≡ Kind.sequence
kind-items (seq t ys) xs h = refl
kind-items missing xs h = h
kind-items nothing xs h = h
kind-items (leaf t s) xs h = h
kind-items (obj t fs) xs h = h

fields-size : (fs : Fields) → total_size tree_size (fields_list fs) ≤ fields_size fs
fields-size end = omega arith
fields-size (entry k missing fs) = omega (arith, fields-size fs)
fields-size (entry k nothing fs) = omega (arith, fields-size fs)
fields-size (entry k (leaf t s) fs) = omega (arith, fields-size fs)
fields-size (entry k (seq t xs) fs) = omega (arith, fields-size fs)
fields-size (entry k (obj t gs) fs) = omega (arith, fields-size fs)

pub tree_entries-size :
    (n : Tree) → tree_kind n ≡ Kind.map → total_size tree_size (tree_entries n) ≤ tree_size n
tree_entries-size (obj t fs) h = fields-size fs
tree_entries-size missing h = omega arith
tree_entries-size nothing h = omega arith
tree_entries-size (leaf t s) h = omega arith
tree_entries-size (seq t xs) h = omega arith

abbrev pub tree_yaml : Yaml
tree_yaml = record {
  Node = Tree;
  kind = tree_kind;
  tag = tree_tag;
  absent = nothing;
  text? = tree_text;
  items = tree_items;
  entries = tree_entries;
  field = tree_field;
  set_field = tree_set_field;
  set_items = tree_set_items;
  size = tree_size;
  kind-absent = refl;
  field-set_field = field-set;
  set_field-set_field = set-set;
  kind-set_field = kind-set;
  items-set_items = items-set;
  kind-set_items = kind-items;
  size-entries = tree_entries-size;
}
