-- ===== src/Config/Sections/SubList.antt =====
-- Which lists of a backend the patch of the `backends` reaches.
use aimrt_comm.Base.{
  String, ◌≡◌, sym, ap, ◌∙◌, Bool, true, not, ◌||◌, List, [], ◌∷◌, none, if◌then◌else◌, str_eq_refl,
  arith,
}
use aimrt_comm.Base.Outcome.{ok, ok-injective}
use aimrt_comm.Config.Yaml.{Kind, Yaml, is_map}
use aimrt_comm.Config.Merge.Map.{merge_map, merge_level}
use aimrt_comm.Config.Merge.Map.Recursion.{merge_map_unfolds, field-merge_map, merge_key}
use aimrt_comm.Config.Items.{merge_map_handler}
use aimrt_comm.Config.Sections.{find_list, with_sub_list, map_with_sub_list}
use aimrt_comm.Config.Sections.Patching.{patch_map_node_with_sub_list}

module _ (y : Yaml) where
  open y use {Node, kind, entries, field, set_field, field-set_field, kind-set_field}

  or_true : {A : Type 0} (b : Bool) (a c : A) → (if b || true then a else c) ≡ a
  or_true b a c = ground arith

  merge_map_adopts : (c l : Node) → kind l ≡ Kind.sequence → merge_map y c l ≡ l
  merge_map_adopts c l h =
      (merge_map_unfolds y c l).1 ∙ unfold merge_level in rw h (or_true (not (is_map (kind c))) l _)

  -- A backend that is patched in place by a backend whose entries are a type and options, where
  -- neither is among the lists looked up: if the internal options are a map and the external options a
  -- map with one entry, a list, then the result has that external list as it is, whatever list stood
  -- there and whatever the patch tags of its elements say.
  pub backend_lists_replaced :
      (possible_list : List (String × String)) (res ext out t o l : Node) (list_name : String)
      → find_list possible_list "type" ≡ none
      → find_list possible_list "options" ≡ none
      → kind res ≡ Kind.map
      → kind ext ≡ Kind.map
      → entries ext ≡ ("type", t) ∷ ("options", o) ∷ []
      → kind (field res "options") ≡ Kind.map
      → kind o ≡ Kind.map
      → entries o ≡ (list_name, l) ∷ []
      → kind l ≡ Kind.sequence
      → patch_map_node_with_sub_list y possible_list res ext ≡ ok out
      → field (field out "options") list_name ≡ l
  unfolding patch_map_node_with_sub_list map_with_sub_list with_sub_list merge_map_handler
  backend_lists_replaced possible_list res ext out t o l list_name no_type no_options res_map
        ext_map shape opts_map o_map o_shape l_seq run =
      let made : set_field (set_field res "type" (merge_map y (field res "type") t)) "options" (
            merge_map y (field (set_field res "type" (merge_map y (field res "type") t)) "options")
              o)
          ≡ out =
        ok-injective (rw (ext_map, res_map, shape, no_type, no_options) at run) in
      let mid_map : kind (set_field res "type" (merge_map y (field res "type") t)) ≡ Kind.map =
        kind-set_field res "type" _ res_map in
      let opts : field (set_field res "type" (merge_map y (field res "type") t)) "options"
          ≡ field res "options" =
        field-set_field res "type" "options" _ res_map in
      ap (λ n. field (field n "options") list_name) (sym made)
      ∙ ap (λ n. field n list_name) (field-set_field _ "options" "options" _ mid_map)
      ∙ ap (λ n. field (merge_map y n o) list_name) opts
      ∙ field-merge_map y (field res "options") o list_name opts_map o_map
      ∙ ap (λ es. merge_key y list_name es (field (field res "options") list_name)) o_shape
      ∙ single (field (field res "options") list_name)
    where
      single : (c : Node) → merge_key y list_name ((list_name, l) ∷ []) c ≡ l
      single c = unfold merge_key in rw (str_eq_refl, l_seq) (merge_map_adopts c l l_seq)
