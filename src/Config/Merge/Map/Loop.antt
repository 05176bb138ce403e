-- ===== src/Config/Merge/Map/Loop.antt =====
-- The stack loop does the recursive merge: whatever is on top of the stack is merged through its
-- path, and then the rest of the stack runs.
use aimrt_comm.Base.{
  ℕ, zero, suc, ◌+◌, ◌≤◌, ◌<◌, String, ◌≡◌, refl, sym, ap, ◌∙◌, true, false, not, ◌||◌, List, [],
  ◌∷◌, ◌++◌, if◌then◌else◌, arith, Bool-cases, inl, inr, some,
}
use aimrt_comm.Config.Yaml.{Kind, Yaml, is_map, total_size}
use aimrt_comm.Config.Merge.Map.{
  NodePath, at, over, touch_fields, push_fields, merge_fields, merge_loop, merge_level, merge_depth,
  is_undefined,
}
use aimrt_comm.Config.Merge.Map.Paths.{
  IsMapPath, at-over, over-merge_field, over_cong, over-IsMapPath, append-IsMapPath,
  touch_fields-KeepsMaps, merge_fields-KeepsMaps,
}

module _ (y : Yaml) where
  open y use {Node, kind, entries, field, set_field, size, size-entries}

  pub weight : List (NodePath × Node) → ℕ
  weight [] = 0
  weight ((p, e) ∷ s) = suc (size e) + weight s

  -- with enough fuel the loop ends with `r`
  abbrev pub Runs : List (NodePath × Node) → Node → Node → Type 0
  Runs stack root r = (fuel : ℕ) → weight stack ≤ fuel → merge_loop y fuel stack root ≡ some r

  weight-push_fields :
      (p : NodePath) (es : List (String × Node)) (stack : List (NodePath × Node))
      → weight (push_fields y p es stack) ≡ total_size size es + weight stack
  unfolding weight push_fields
  weight-push_fields p [] stack = omega arith
  weight-push_fields p ((k, e) ∷ es) stack =
      omega (arith, weight-push_fields p es ((p ++ k ∷ [], e) ∷ stack))

  -- what one stack entry does to the root
  abbrev pub effect : (Node → Node → Node) → NodePath → Node → Node → Node
  effect m p e root = if is_undefined y e then root else over y p (λ r. m r e) root

  abbrev Step : ℕ → (Node → Node → Node) → Type 0
  Step d m =
      (p : NodePath) (e : Node) (rest : List (NodePath × Node)) (root r : Node)
      → size e < d
      → IsMapPath y p root
      → Runs rest (effect m p e root) r
      → Runs ((p, e) ∷ rest) root r

  fields_run :
      (d : ℕ) (m : Node → Node → Node)
      → Step d m
      → (p : NodePath) (es : List (String × Node)) (rest : List (NodePath × Node)) (f : Node → Node)
        (root r : Node)
      → total_size size es ≤ d
      → IsMapPath y p root
      → kind (f (at y p root)) ≡ Kind.map
      → Runs rest (over y p (λ n. merge_fields y m es (f n)) root) r
      → Runs (push_fields y p es rest) (over y p f root) r
  unfolding push_fields merge_fields
  fields_run d m step p [] rest f root r small h km runs = runs
  fields_run d m step p ((k, e) ∷ es) rest f root r small h km runs =
      fields_run d m step p es ((p ++ k ∷ [], e) ∷ rest) f root r (omega arith) h km (
        step (p ++ k ∷ []) e rest _ r (omega arith)
          (append-IsMapPath y p k _ (over-IsMapPath y p _ root h)
            (ap kind (at-over y p _ root h) ∙ merge_fields-KeepsMaps y m es _ km))
          (λ fuel w.
            ap (merge_loop y fuel rest) (over-merge_field y p m k e _ root h) ∙ runs fuel w))

  -- one round of the loop, and one level of the merge where there is something to merge
  loop_round :
      (fuel : ℕ) (p : NodePath) (e : Node) (rest : List (NodePath × Node)) (root : Node)
      → merge_loop y (suc fuel) ((p, e) ∷ rest) root ≡ (
          if is_undefined y e
          then merge_loop y fuel rest root
          else if not (is_map (kind (at y p root))) || not (is_map (kind e))
          then merge_loop y fuel rest (over y p (λ _. e) root)
          else merge_loop y fuel
              (push_fields y p (entries e) rest)
              (over y p (touch_fields y (entries e)) root))
  unfolding merge_loop
  loop_round fuel p e rest root = refl

  level_adopts :
      (m : Node → Node → Node) (n e : Node)
      → is_undefined y e ≡ false
      → (not (is_map (kind n)) || not (is_map (kind e))) ≡ true
      → e ≡ merge_level y m n e
  unfolding merge_level
  level_adopts m n e u a = rw (u, a) refl

  level_descends :
      (m : Node → Node → Node) (n e : Node)
      → is_undefined y e ≡ false
      → (not (is_map (kind n)) || not (is_map (kind e))) ≡ false
      → merge_level y m n e ≡ merge_fields y m (entries e) (touch_fields y (entries e) n)
  unfolding merge_level
  level_descends m n e u a = rw (u, a) refl

  pub both_maps :
      (n e : Node)
      → (not (is_map (kind n)) || not (is_map (kind e))) ≡ false
      → (kind n ≡ Kind.map) × (kind e ≡ Kind.map)
  both_maps n e h = ground arith

  module _ (d : ℕ) (m : Node → Node → Node) (step : Step d m) (p : NodePath) (e : Node)
      (rest : List (NodePath × Node)) (root r : Node) (small : size e < suc d)
      (path : IsMapPath y p root) (runs : Runs rest (effect (merge_level y m) p e root) r)
      (fuel : ℕ) (enough : suc (size e) + weight rest ≤ suc fuel) where
    run_skip : is_undefined y e ≡ true → merge_loop y (suc fuel) ((p, e) ∷ rest) root ≡ some r
    run_skip u = loop_round fuel p e rest root ∙ rw u (rw u at (runs fuel (omega arith)))

    run_adopt :
        is_undefined y e ≡ false
        → (not (is_map (kind (at y p root))) || not (is_map (kind e))) ≡ true
        → merge_loop y (suc fuel) ((p, e) ∷ rest) root ≡ some r
    run_adopt u a =
        loop_round fuel p e rest root
        ∙ rw (u, a)
            (ap (merge_loop y fuel rest)
                (over_cong y p _ _ root (level_adopts m (at y p root) e u a))
              ∙ rw u at (runs fuel (omega arith)))

    run_descend :
        is_undefined y e ≡ false
        → (not (is_map (kind (at y p root))) || not (is_map (kind e))) ≡ false
        → merge_loop y (suc fuel) ((p, e) ∷ rest) root ≡ some r
    run_descend u a =
        let (res_map, ext_map) = both_maps (at y p root) e a in
        let below = size-entries e ext_map in
        loop_round fuel p e rest root
        ∙ rw (u, a)
            (fields_run d m step p (entries e) rest (touch_fields y (entries e)) root r
              (omega arith) path (touch_fields-KeepsMaps y (entries e) _ res_map)
              (λ fuel' w.
                ap (merge_loop y fuel' rest)
                  (over_cong y p _ _ root (sym (level_descends m (at y p root) e u a)))
                ∙ rw u at (runs fuel' w))
              fuel (omega (arith, weight-push_fields p (entries e) rest)))

    pub run_entry : merge_loop y (suc fuel) ((p, e) ∷ rest) root ≡ some r
    run_entry = elim (Bool-cases (is_undefined y e)) [
      | inl u ↦ run_skip u
      | inr u ↦ elim (Bool-cases (not (is_map (kind (at y p root))) || not (is_map (kind e)))) [
        | inl a ↦ run_adopt u a
        | inr a ↦ run_descend u a
      ]
    ]

  depth-Step : (d : ℕ) → Step d (merge_depth y d)
  unfolding merge_depth weight
  depth-Step zero p e rest root r small path runs fuel enough = absurd (omega arith)
  depth-Step (suc d) p e rest root r small path runs zero enough = absurd (omega arith)
  depth-Step (suc d) p e rest root r small path runs (suc fuel) enough =
      run_entry d (merge_depth y d) (depth-Step d) p e rest root r small path runs fuel enough

  loop_done : (fuel : ℕ) (n : Node) → merge_loop y fuel [] n ≡ some n
  unfolding merge_loop
  loop_done fuel n = refl

  top_effect :
      (d : ℕ) (n e : Node) → effect (merge_depth y (suc d)) [] e n ≡ merge_depth y (suc d) n e
  unfolding over merge_depth merge_level
  top_effect d n e = elim (Bool-cases (is_undefined y e)) [ inl u ↦ rw u refl | inr u ↦ rw u refl ]

  -- With fuel for every node of the external tree, the loop ends with the recursive merge.
  pub loop-eq-depth :
      (d fuel : ℕ) (n e : Node)
      → size e ≤ d
      → size e < fuel
      → merge_loop y fuel (([], e) ∷ []) n ≡ some (merge_depth y (suc d) n e)
  unfolding weight
  loop-eq-depth d fuel n e deep enough =
      depth-Step (suc d) [] e [] n _ (omega arith) tt
        (λ f w. loop_done f _ ∙ ap some (top_effect d n e)) fuel (omega arith)
