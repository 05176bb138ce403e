-- ===== src/Config/Sections.antt =====
-- The merge and the patch of each section of the `aimrt` node, and of the modules' own nodes
-- (src/module/cfg_processor.cpp).
pub mod Merging
pub mod Patching
pub mod Acts
pub mod SubList
pub mod Custom
pub mod Examples
use aimrt_comm.Base.{
  ℕ, String, Bool, true, false, not, ◌||◌, Option, none, some, List, [], ◌∷◌, if◌then◌else◌, str_eq,
}
use aimrt_comm.Base.Outcome.{Outcome, ok, ◌>>=◌, ◌>>◌}
use aimrt_comm.Config.Yaml.{Yaml, is_map}
use aimrt_comm.Config.Modes.{extract_custom_tag, has_explicit_override_patch_mode}
use aimrt_comm.Config.Merge.Map.{is_undefined, merge_map}
use aimrt_comm.Config.Items.{Handler, subscript, merge_map_handler}

-- `possible_list.find(ext_name)`: the key of the elements of a field that is a list
abbrev pub find_list : List (String × String) → String → Option String
find_list [] name = none
find_list ((k, v) ∷ ls) name =
    let rest = find_list ls name in if str_eq k name then some v else rest

module _ (y : Yaml) where
  open y use {Node, kind, tag, entries, field, set_field}

  -- `F(res[key], ext[key])`, which leaves the entry in `res`
  unfoldable pub at_key : Handler y → String → Node → Node → Outcome Node
  at_key handler key res ext = do
    r ← subscript y res key
    e ← subscript y ext key
    c ← handler r e
    ok (set_field res key c)

  -- the loop over `ext` of the two functions `...MapNodeWithSubList`
  unfoldable pub with_sub_list :
      (String → Handler y) → List (String × String) → List (String × Node) → Node → Outcome Node
  with_sub_list list_handler possible_list [] res = ok res
  with_sub_list list_handler possible_list ((name, ext_i) ∷ es) res = do
    c ← elim (find_list possible_list name) [
      | some id_key ↦ list_handler id_key (field res name) ext_i
      | none ↦ merge_map_handler y (field res name) ext_i
    ]
    with_sub_list list_handler possible_list es (set_field res name c)

  unfoldable pub map_with_sub_list : (String → Handler y) → List (String × String) → Handler y
  map_with_sub_list list_handler possible_list res ext =
      if is_undefined y ext
      then ok res
      else if not (is_map (kind ext)) || not (is_map (kind res))
      then ok ext
      else with_sub_list list_handler possible_list (entries ext) res

  -- a section that is replaced as a whole under `!!override`
  unfoldable pub unless_overridden : Handler y → Handler y
  unless_overridden handler res ext = if is_undefined y ext then ok res else do
    overridden ← has_explicit_override_patch_mode (extract_custom_tag (tag ext))
    if overridden then ok ext else handler res ext

  -- a section that is left where the external one is not defined
  unfoldable pub when_defined : Handler y → Handler y
  when_defined handler res ext = if is_undefined y ext then ok res else handler res ext

  -- one call after another on the same nodes
  infixr 6 ◌then_also◌
  unfoldable pub ◌then_also◌ : Handler y → Handler y → Handler y
  ◌then_also◌ first second res ext = do r ← first res ext; second r ext
