-- ===== src/Config/Merge/Map.antt =====
-- `cfg::details::MergeMapNode` and `IsUndefined` (src/module/cfg/utils.cpp). The stack holds
-- references into the tree; a reference is the path of keys from the root node.
pub mod Paths
mod Loop
pub mod Recursion
use aimrt_comm.Base.{
  ℕ, zero, suc, String, ◌≡◌, Bool, true, false, not, ◌||◌, Option, none, some, List, [], ◌∷◌, ◌++◌,
  if◌then◌else◌,
}
use aimrt_comm.Config.Yaml.{Kind, Yaml, is_map, is_absent}

abbrev pub NodePath : Type 0
NodePath = List String

module _ (y : Yaml) where
  open y use {Node, kind, entries, field, set_field, size}

  abbrev pub is_undefined : Node → Bool
  is_undefined n = is_absent (kind n)

  -- the node that a reference names, and a change made through it
  unfoldable pub at : NodePath → Node → Node
  at [] n = n
  at (k ∷ p) n = at p (field n k)

  unfoldable pub over : NodePath → (Node → Node) → Node → Node
  over [] f n = f n
  over (k ∷ p) f n = set_field n k (over p f (field n k))

  -- `curr.res[field_name]` makes the entry if there is none
  unfoldable pub touch : String → Node → Node
  touch k n = set_field n k (field n k)

  -- the loop over `curr.ext`: each field is touched and pushed, so the last one is on top
  unfoldable pub touch_fields : List (String × Node) → Node → Node
  touch_fields [] n = n
  touch_fields ((k, e) ∷ es) n = touch_fields es (touch k n)

  unfoldable pub push_fields :
      NodePath → List (String × Node) → List (NodePath × Node) → List (NodePath × Node)
  push_fields p [] stack = stack
  push_fields p ((k, e) ∷ es) stack = push_fields p es ((p ++ k ∷ [], e) ∷ stack)

  -- `while (not stack.empty())`, on fuel
  unfoldable pub merge_loop : ℕ → List (NodePath × Node) → Node → Option Node
  merge_loop fuel [] root = some root
  merge_loop zero (top ∷ stack) root = none
  merge_loop (suc fuel) ((p, ext) ∷ stack) root =
      let skip = merge_loop fuel stack root in
      let adopt = merge_loop fuel stack (over p (λ _. ext) root) in
      let descend =
        merge_loop fuel (push_fields p (entries ext) stack)
          (over p (touch_fields (entries ext)) root) in
      if is_undefined ext
      then skip
      else if not (is_map (kind (at p root))) || not (is_map (kind ext))
      then adopt
      else descend

  unfoldable pub merge_map : Node → Node → Node
  merge_map res ext = elim (merge_loop (suc (size ext)) (([], ext) ∷ []) res) [
    | none ↦ res
    | some r ↦ r
  ]

  -- The same merge as a recursion on nesting, cut off at a depth.
  unfoldable pub merge_field : (Node → Node → Node) → String → Node → Node → Node
  merge_field m k e n = if is_undefined e then n else set_field n k (m (field n k) e)

  -- the fields, the last one first
  unfoldable pub merge_fields : (Node → Node → Node) → List (String × Node) → Node → Node
  merge_fields m [] n = n
  merge_fields m ((k, e) ∷ es) n = merge_field m k e (merge_fields m es n)

  -- one level of the merge, over a merge for what is below
  unfoldable pub merge_level : (Node → Node → Node) → Node → Node → Node
  merge_level m res ext =
      if is_undefined ext
      then res
      else if not (is_map (kind res)) || not (is_map (kind ext))
      then ext
      else merge_fields m (entries ext) (touch_fields (entries ext) res)

  unfoldable pub merge_depth : ℕ → Node → Node → Node
  merge_depth zero res ext = res
  merge_depth (suc d) res ext = merge_level (merge_depth d) res ext
