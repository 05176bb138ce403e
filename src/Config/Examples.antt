-- ===== src/Config/Examples.antt =====
-- Runs of the configuration processor (src/module/cfg_processor.cpp) on small documents.
use aimrt_comm.Base.{suc, String, ◌≡◌, refl, true, false, [], ◌∷◌, some, not}
use mathlib.Core.List.{Permᴰ}
use aimrt_comm.Base.Outcome.{Outcome, ok}
use aimrt_comm.Utils.Text.{
  codes, text_eq, strip_prefix, is_space, find_first_not_of, find_last_not_of, substr, getlines,
  trim_item, trim_items, split_trim,
}
use aimrt_comm.Config.Yaml.Tree.{Tree, leaf, seq, obj, nil, cons, end, entry, tree_yaml}
use aimrt_comm.Config.Modes.{
  PatchMode, undefined_mode, extract_custom_tag, new_flag, override_flag, classify, add_word,
  add_words, two_of, finish_modes, analyze_patch_mode,
}
use aimrt_comm.Config.Modes.Consistent.{OneEach, analyze_patch_mode_consistent}
use aimrt_comm.Config.Modes.Order.{add_words_perm}
use aimrt_comm.Config.Merge.Map.{
  at, over, touch, touch_fields, push_fields, merge_loop, merge_map, merge_level,
}
use aimrt_comm.Config.Merge.Map.Recursion.{merge_map_unfolds, field-merge_map, merge_key}
use aimrt_comm.Config.Items.{
  subscript, as_string, field_key, get_key, do_override, compare_and_replace, patch_item,
  merge_map_handler,
}
use aimrt_comm.Config.Items.Place.{place, place_new, patch_item_present, patch_item_absent}

abbrev backend : String → String → Tree
backend type level = obj "" (entry "type" (leaf "" type) (entry "lvl" (leaf "" level) end))

abbrev moved : Tree
moved =
    obj "tag:yaml.org,2002:new.back + override.front"
      (entry "type" (leaf "" "file") (entry "lvl" (leaf "" "Warn") end))

abbrev front_or_back : PatchMode
front_or_back = record undefined_mode { override_front = true; new_back = true; explicit = true }

moved_modes : analyze_patch_mode (extract_custom_tag (tree_yaml.tag moved)) ≡ ok front_or_back
unfolding analyze_patch_mode extract_custom_tag text_eq strip_prefix is_space find_first_not_of
    find_last_not_of substr getlines trim_item trim_items split_trim new_flag override_flag classify
    add_word add_words finish_modes
moved_modes = refl

abbrev by_type : Tree → Outcome String
by_type = get_key tree_yaml "type"

backend_key : (type level : String) → by_type (backend type level) ≡ ok type
unfolding get_key field_key subscript as_string
backend_key type level = refl

moved_key : by_type moved ≡ ok "file"
unfolding get_key field_key subscript as_string
moved_key = refl

patch_item_present_example :
    patch_item tree_yaml
      (merge_map_handler tree_yaml)
      by_type
      (backend "console" "Info" ∷ backend "file" "Debug" ∷ [])
      moved
    ≡ place tree_yaml front_or_back
        (do_override tree_yaml
          (merge_map_handler tree_yaml)
          front_or_back
          (backend "file" "Debug")
          moved)
        (compare_and_replace tree_yaml (backend "file" "Debug") moved)
        (backend "console" "Info" ∷ [])
        (backend "file" "Debug")
        []
patch_item_present_example =
    patch_item_present tree_yaml (merge_map_handler tree_yaml) by_type front_or_back "file" moved
      moved_modes moved_key (backend "console" "Info" ∷ []) (backend "file" "Debug") []
      (("console", backend_key "console" "Info", refl), tt) (backend_key "file" "Debug") refl

patch_item_absent_example :
    patch_item tree_yaml (merge_map_handler tree_yaml) by_type (backend "console" "Info" ∷ []) moved
    ≡ place_new tree_yaml front_or_back (backend "console" "Info" ∷ []) moved
patch_item_absent_example =
    patch_item_absent tree_yaml (merge_map_handler tree_yaml) by_type front_or_back "file" moved
      moved_modes moved_key (backend "console" "Info" ∷ [])
      (("console", backend_key "console" "Info", refl), tt)

abbrev threads : Tree
threads = obj "" (
    entry "name" (leaf "" "main")
      (entry "sched" (obj "" (entry "policy" (leaf "" "FIFO") end)) end))

abbrev thread_changes : Tree
thread_changes = obj "" (
    entry "sched" (obj "" (entry "priority" (leaf "" "80") end))
      (entry "cpu" (seq "" (cons (leaf "" "0") nil)) end))

merge_map_unfolds_example :
    (merge_loop tree_yaml (suc (tree_yaml.size thread_changes)) (([], thread_changes) ∷ []) threads
      ≡ some (merge_map tree_yaml threads thread_changes))
    × (merge_map tree_yaml threads thread_changes
        ≡ merge_level tree_yaml (merge_map tree_yaml) threads thread_changes)
merge_map_unfolds_example = merge_map_unfolds tree_yaml threads thread_changes

field-merge_map_example :
    tree_yaml.field (merge_map tree_yaml threads thread_changes) "sched"
    ≡ merge_key tree_yaml "sched"
        (tree_yaml.entries thread_changes)
        (tree_yaml.field threads "sched")
field-merge_map_example = field-merge_map tree_yaml threads thread_changes "sched" refl refl

-- the same merge, evaluated
merged_threads :
    merge_map tree_yaml threads thread_changes
    ≡ obj "" (
        entry "name" (leaf "" "main") (
          entry "sched"
            (obj "" (entry "policy" (leaf "" "FIFO") (entry "priority" (leaf "" "80") end)))
            (entry "cpu" (seq "" (cons (leaf "" "0") nil)) end)))
unfolding merge_map merge_loop push_fields touch_fields touch over at
merged_threads = refl

parsed_words :
    add_words (codes "new.back" ∷ codes "override.front" ∷ []) undefined_mode
    ≡ ok (record undefined_mode { override_front = true; new_back = true })
unfolding add_words add_word classify new_flag override_flag text_eq strip_prefix
parsed_words = refl

add_words_perm_example :
    add_words (codes "override.front" ∷ codes "new.back" ∷ []) undefined_mode
    ≡ ok (record undefined_mode { override_front = true; new_back = true })
add_words_perm_example =
    add_words_perm (codes "new.back" ∷ codes "override.front" ∷ [])
      (codes "override.front" ∷ codes "new.back" ∷ []) undefined_mode
      (record undefined_mode { override_front = true; new_back = true }) (Permᴰ.swap refl refl)
      parsed_words

analyze_patch_mode_consistent_example :
    OneEach front_or_back
    × (two_of false false false ≡ false)
    × (true ≡ not (text_eq (codes "new.back + override.front") []))
unfolding extract_custom_tag
analyze_patch_mode_consistent_example =
    analyze_patch_mode_consistent (extract_custom_tag (tree_yaml.tag moved)) front_or_back
      moved_modes
