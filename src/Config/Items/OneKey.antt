-- ===== src/Config/Items/OneKey.antt =====
-- Merging an element as a map keeps its key.
use aimrt_comm.Base.{
  String, ◌≡◌, refl, sym, ap, ◌∙◌, Bool, true, false, not, ◌&&◌, ◌||◌, List, [], ◌∷◌, if◌then◌else◌,
  str_eq, arith, Bool-cases, inl, inr,
}
use aimrt_comm.Base.Outcome.{ok-injective}
use aimrt_comm.Config.Yaml.{Kind, Yaml, is_map, is_absent}
use aimrt_comm.Config.Merge.Map.{is_undefined, merge_map, merge_level, touch_fields, merge_fields}
use aimrt_comm.Config.Merge.Map.Recursion.{merge_map_unfolds, merge_key, field-merge_map}
use aimrt_comm.Config.Merge.Map.Paths.{touch_fields-KeepsMaps, merge_fields-KeepsMaps}
use aimrt_comm.Config.Items.{field_key, subscript, as_string, merge_map_handler}
use aimrt_comm.Config.Items.Keys.{KeepsKey, AllKeep}

module _ (y : Yaml) where
  open y use {Node, kind, entries, field}

  -- the nodes that a list of entries has for a key
  abbrev pub nodes_of : String → List (String × Node) → List Node
  nodes_of key [] = []
  nodes_of key ((k, n) ∷ es) = let rest = nodes_of key es in if str_eq k key then n ∷ rest else rest

  -- an element that is a map with one entry of the key, a scalar
  pub record OneKey (key : String) (e : Node) : Type 0 where
    pub value : Node
    pub is_a_map : kind e ≡ Kind.map
    pub one : nodes_of key (entries e) ≡ value ∷ []
    pub found : field e key ≡ value
    pub is_a_scalar : kind value ≡ Kind.scalar

  abbrev pub AllOneKey : String → List Node → Type 0
  AllOneKey key [] = Unit
  AllOneKey key (e ∷ es) = OneKey key e × AllOneKey key es

  taken :
      {A : Type 0} (u a b : Bool) (c v x : A)
      → u ≡ false
      → (a && b) ≡ false
      → (if u then c else if not a || not b then v else x) ≡ v
  taken u a b c v x h g = ground arith

  -- the merge takes over what is not merged as a map
  merge_map_takes :
      (c v : Node)
      → is_undefined y v ≡ false
      → (is_map (kind c) && is_map (kind v)) ≡ false
      → merge_map y c v ≡ v
  merge_map_takes c v h g =
      (merge_map_unfolds y c v).1
      ∙ unfold merge_level in taken (is_undefined y v) (is_map (kind c)) (is_map (kind v)) c v _ h g

  same_head : {n v : Node} {ns : List Node} → n ∷ ns ≡ v ∷ [] → (n ≡ v) × (ns ≡ [])
  same_head h = (cc, cc)

  merge_key-none :
      (key : String) (es : List (String × Node)) (c : Node)
      → nodes_of key es ≡ []
      → merge_key y key es c ≡ c
  unfolding merge_key
  merge_key-none key [] c h = refl
  merge_key-none key ((k, n) ∷ es) c h = elim (Bool-cases (str_eq k key)) [
    | inl e ↦ (let clash : n ∷ nodes_of key es ≡ [] = rw e at h in absurd (cc))
    | inr e ↦ rw e (merge_key-none key es c (rw e at h))
  ]

  merge_key-one :
      (key : String) (es : List (String × Node)) (c v : Node)
      → nodes_of key es ≡ v ∷ []
      → is_undefined y v ≡ false
      → merge_key y key es c ≡ merge_map y c v
  unfolding merge_key
  merge_key-one key [] c v h u = cc
  merge_key-one key ((k, n) ∷ es) c v h u = elim (Bool-cases (str_eq k key)) [
    | inl e ↦
        (let (is, none_left) = same_head (rw e at h) in
          let defined : is_undefined y n ≡ false = ap (is_undefined y) is ∙ u in
          rw (e, defined)
            (ap (λ b. merge_map y b n) (merge_key-none key es c none_left) ∙ ap (merge_map y c) is))
    | inr e ↦ rw e (merge_key-one key es c v (rw e at h) u)
  ]

  merged-map :
      (r e : Node) → kind r ≡ Kind.map → kind e ≡ Kind.map → kind (merge_map y r e) ≡ Kind.map
  merged-map r e h g =
      ap kind ((merge_map_unfolds y r e).1 ∙ descends)
      ∙ merge_fields-KeepsMaps y (merge_map y) (entries e) (touch_fields y (entries e) r)
          (touch_fields-KeepsMaps y (entries e) r h)
    where
      descends :
          merge_level y (merge_map y) r e
          ≡ merge_fields y (merge_map y) (entries e) (touch_fields y (entries e) r)
      descends = unfold merge_level in rw (h, g) refl

  field_key-map :
      (key : String) (n : Node) → kind n ≡ Kind.map → field_key y key n ≡ as_string y (field n key)
  unfolding field_key subscript
  field_key-map key n h = rw h refl

  -- the merge of an element into another, by the key
  OneKey-KeepsKey :
      (key : String) (e : Node)
      → OneKey key e
      → KeepsKey y (field_key y key) (merge_map_handler y) e
  unfolding merge_map_handler
  OneKey-KeepsKey key e o r c name has named run =
      ap (field_key y key) (sym (ok-injective run)) ∙ elim (Bool-cases (is_map (kind r))) [
        | inl is ↦
            (let r_map = is_map-kind (kind r) is in
              field_key-map key (merge_map y r e) (merged-map r e r_map o.is_a_map)
              ∙ ap (as_string y) (
                  field-merge_map y r e key r_map o.is_a_map
                  ∙ merge_key-one key (entries e) (field r key) o.value o.one
                      (ap is_absent o.is_a_scalar)
                  ∙ merge_map_takes (field r key) o.value (ap is_absent o.is_a_scalar)
                      (rw o.is_a_scalar (and_false (is_map (kind (field r key)))))
                  ∙ sym o.found)
              ∙ sym (field_key-map key e o.is_a_map)
              ∙ named)
        | inr other ↦
            ap (field_key y key) (merge_map_takes r e (ap is_absent o.is_a_map) (rw other refl))
            ∙ named
      ]
    where
      and_false : (b : Bool) → (b && false) ≡ false
      and_false b = ground arith

      is_map-kind : (k : Kind) → is_map k ≡ true → k ≡ Kind.map
      is_map-kind Kind.map h = refl
      is_map-kind Kind.undefined h = cc
      is_map-kind Kind.null h = cc
      is_map-kind Kind.scalar h = cc
      is_map-kind Kind.sequence h = cc

  pub AllOneKey-AllKeep :
      (key : String) (es : List Node)
      → AllOneKey key es
      → AllKeep y (field_key y key) (merge_map_handler y) es
  AllOneKey-AllKeep key [] h = tt
  AllOneKey-AllKeep key (e ∷ es) (o, h) = (OneKey-KeepsKey key e o, AllOneKey-AllKeep key es h)
