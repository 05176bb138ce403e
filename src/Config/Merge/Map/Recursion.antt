-- ===== src/Config/Merge/Map/Recursion.antt =====
-- What `MergeMapNode` computes, without its stack.
use aimrt_comm.Base.{
  ℕ, zero, suc, ◌≤◌, ◌<◌, String, ◌≡◌, refl, sym, ap, ◌∙◌, Bool, true, false, not, ◌||◌, ◌&&◌, List,
  [], ◌∷◌, if◌then◌else◌, arith, Bool-cases, inl, inr, some, str_eq, str_eq→eq,
}
use aimrt_comm.Config.Yaml.{Kind, Yaml, is_map, total_size}
use aimrt_comm.Config.Merge.Map.{
  touch, touch_fields, merge_field, merge_fields, merge_level, merge_depth, merge_loop, merge_map,
  is_undefined,
}
use aimrt_comm.Config.Merge.Map.Paths.{touch_fields-KeepsMaps, merge_fields-KeepsMaps}
use aimrt_comm.Config.Merge.Map.Loop.{loop-eq-depth, both_maps}

module _ (y : Yaml) where
  open y use {
    Node, kind, entries, field, set_field, size, size-entries, field-set_field, kind-set_field,
  }

  -- two merges that agree on the nodes below a size
  abbrev Agree : ℕ → (Node → Node → Node) → (Node → Node → Node) → Type 0
  Agree b m m' = (n e : Node) → size e < b → m n e ≡ m' n e

  fields-Agree :
      (b : ℕ) (m m' : Node → Node → Node)
      → Agree b m m'
      → (es : List (String × Node)) (n : Node) → total_size size es ≤ b
      → merge_fields y m es n ≡ merge_fields y m' es n
  unfolding merge_fields merge_field
  fields-Agree b m m' same [] n h = refl
  fields-Agree b m m' same ((k, e) ∷ es) n h =
      rw
        (
          fields-Agree b m m' same es n (omega arith),
          same (field (merge_fields y m' es n) k) e (omega arith),
        )
        refl

  level-Agree :
      (m m' : Node → Node → Node) (n e : Node)
      → Agree (size e) m m'
      → merge_level y m n e ≡ merge_level y m' n e
  unfolding merge_level
  level-Agree m m' n e same = elim (Bool-cases (not (is_map (kind n)) || not (is_map (kind e)))) [
    | inl a ↦ rw a refl
    | inr a ↦
        rw
          (
            a,
            fields-Agree (size e) m m' same (entries e) (touch_fields y (entries e) n)
                (size-entries e (both_maps y n e a).1),
          )
          refl
  ]

  -- a depth that exceeds the size of the external node makes no difference
  depth_agree :
      (d d' : ℕ) (n e : Node)
      → size e < d
      → size e < d'
      → merge_depth y d n e ≡ merge_depth y d' n e
  unfolding merge_depth
  depth_agree zero d' n e h h' = absurd (omega arith)
  depth_agree (suc d) zero n e h h' = absurd (omega arith)
  depth_agree (suc d) (suc d') n e h h' =
      level-Agree (merge_depth y d) (merge_depth y d') n e
        (λ n' e' lt. depth_agree d d' n' e' (omega arith) (omega arith))

  pub merge_map-eq-depth : (n e : Node) → merge_map y n e ≡ merge_depth y (suc (size e)) n e
  unfolding merge_map
  merge_map-eq-depth n e =
      rw (loop-eq-depth y (size e) (suc (size e)) n e (omega arith) (omega arith), merge_map) refl

  -- The loop of `MergeMapNode` always ends within its fuel, and its result is the recursive merge:
  -- an absent external node changes nothing; where one of the nodes is no map the external node is
  -- taken; of two maps the fields of the external one are touched in order and merged, by
  -- `MergeMapNode` itself, from the last to the first.
  pub merge_map_unfolds :
      (res ext : Node)
      → (merge_loop y (suc (size ext)) (([], ext) ∷ []) res ≡ some (merge_map y res ext))
        × (merge_map y res ext ≡ merge_level y (merge_map y) res ext)
  merge_map_unfolds res ext = (
    loop-eq-depth y (size ext) (suc (size ext)) res ext (omega arith) (omega arith)
        ∙ ap some (sym (merge_map-eq-depth res ext)),
    merge_map-eq-depth res ext
        ∙ unfold merge_depth in
          level-Agree (merge_depth y (size ext)) (merge_map y) res ext (λ n e lt.
            depth_agree (size ext) (suc (size e)) n e lt (omega arith)
            ∙ sym (merge_map-eq-depth n e)),
  )

  -- what the entries of the external map make of one field
  unfoldable pub merge_key : String → List (String × Node) → Node → Node
  merge_key j [] c = c
  merge_key j ((k, e) ∷ es) c =
      let below = merge_key j es c in
      if str_eq k j && not (is_undefined y e) then merge_map y below e else below

  same_if : (k j : String) (f : String → Node) → (if str_eq k j then f k else f j) ≡ f j
  same_if k j f = elim (Bool-cases (str_eq k j)) [
    | inl e ↦ rw e (ap f (str_eq→eq k j e))
    | inr e ↦ rw e refl
  ]

  field-touch_fields :
      (es : List (String × Node)) (n : Node) (j : String)
      → kind n ≡ Kind.map
      → field (touch_fields y es n) j ≡ field n j
  unfolding touch_fields touch
  field-touch_fields [] n j h = refl
  field-touch_fields ((k, e) ∷ es) n j h =
      field-touch_fields es (set_field n k (field n k)) j (kind-set_field n k _ h)
      ∙ field-set_field n k j (field n k) h
      ∙ same_if k j (λ i. field n i)

  and_false : (b : Bool) → (b && not true) ≡ false
  and_false b = ground arith

  merge_key_step :
      (k j : String) (e : Node) (f : String → Node) (c : Node)
      → f j ≡ c
      → (if str_eq k j then merge_map y (f k) e else f j)
        ≡ (if str_eq k j && not false then merge_map y c e else c)
  merge_key_step k j e f c h = elim (Bool-cases (str_eq k j)) [
    | inl same ↦ rw same (ap (λ n. merge_map y n e) (ap f (str_eq→eq k j same) ∙ h))
    | inr other ↦ rw other h
  ]

  field-merge_fields :
      (es : List (String × Node)) (n : Node) (j : String)
      → kind n ≡ Kind.map
      → field (merge_fields y (merge_map y) es n) j ≡ merge_key j es (field n j)
  unfolding merge_fields merge_field merge_key
  field-merge_fields [] n j h = refl
  field-merge_fields ((k, e) ∷ es) n j h = elim (Bool-cases (is_undefined y e)) [
    | inl u ↦ rw (u, and_false (str_eq k j)) (field-merge_fields es n j h)
    | inr u ↦ rw u (
        field-set_field _ k j _ (merge_fields-KeepsMaps y (merge_map y) es n h)
        ∙ merge_key_step k j e (λ i. field (merge_fields y (merge_map y) es n) i)
            (merge_key j es (field n j)) (field-merge_fields es n j h))
  ]

  -- Merging two maps, key by key: the field `j` is the internal one, merged with each defined
  -- external entry of that key, the last entry first; so a field that the external map does not
  -- define stays as it was.
  pub field-merge_map :
      (res ext : Node) (j : String)
      → kind res ≡ Kind.map
      → kind ext ≡ Kind.map
      → field (merge_map y res ext) j ≡ merge_key j (entries ext) (field res j)
  field-merge_map res ext j r e =
      ap (λ n. field n j) ((merge_map_unfolds res ext).1 ∙ maps_descend r e)
      ∙ field-merge_fields (entries ext) (touch_fields y (entries ext) res) j
          (touch_fields-KeepsMaps y (entries ext) res r)
      ∙ ap (merge_key j (entries ext)) (field-touch_fields (entries ext) res j r)
    where
      maps_descend :
          kind res ≡ Kind.map
          → kind ext ≡ Kind.map
          → merge_level y (merge_map y) res ext
            ≡ merge_fields y (merge_map y) (entries ext) (touch_fields y (entries ext) res)
      maps_descend r e = unfold merge_level in rw (r, e) refl
