-- ===== src/Config/Sections/Examples.antt =====
-- Runs of the merge of keyed lists and of whole sections (src/module/cfg_processor.cpp).
use aimrt_comm.Base.{String, ◌≡◌, refl, List, [], ◌∷◌, filter}
use aimrt_comm.Base.Outcome.{Outcome, ok}
use aimrt_comm.Utils.Text.{text_eq, strip_prefix}
use aimrt_comm.Config.Yaml.{Kind}
use aimrt_comm.Config.Yaml.Tree.{
  Tree, missing, nothing, leaf, seq, obj, nil, cons, end, entry, tree_yaml,
}
use aimrt_comm.Config.Modes.{
  extract_custom_tag, has_explicit_override_patch_mode, analyze_patch_mode,
}
use aimrt_comm.Config.Merge.Map.{at, over, touch, touch_fields, push_fields, merge_loop, merge_map}
use aimrt_comm.Config.Items.{
  subscript, as_string, field_key, get_key, find_item, patch_item, patch_items, patch_list,
  patch_existing, do_override, merge_item, merge_items, is_listed, remove_unlisted, merge_list,
  merge_map_handler,
}
use aimrt_comm.Config.Items.Keys.{elem, add_keys, keys_of, KeyedIsDefined}
use aimrt_comm.Config.Items.OneKey.{AllOneKey}
use aimrt_comm.Config.Items.Exact.{keys_of-merge_list}
use aimrt_comm.Config.Sections.{
  at_key, with_sub_list, map_with_sub_list, unless_overridden, when_defined, ◌then_also◌,
}
use aimrt_comm.Config.Sections.Merging.{
  merge_aimrt_log_node, merge_aimrt_plugin_node, merge_aimrt_channel_node, merge_aimrt_rpc_node,
  merge_aimrt_executor_node, merge_aimrt_module_node, merge_aimrt_node, merge_custom_nodes,
}
use aimrt_comm.Config.Sections.Patching.{
  patch_map_node, patch_map_node_with_sub_list, patch_aimrt_log_node, patch_aimrt_plugin_node,
  patch_aimrt_channel_node, patch_aimrt_rpc_node, patch_aimrt_executor_node,
  patch_aimrt_module_node, patch_aimrt_node,
}
use aimrt_comm.Config.Sections.Acts.{Acts, patched_sections, patch_aimrt_node-Acts}
use aimrt_comm.Config.Sections.Custom.{merge_named, merge_custom_nodes_lem}
use aimrt_comm.Config.Sections.SubList.{backend_lists_replaced}

abbrev executor : String → String → Tree
executor name kind = obj "" (entry "name" (leaf "" name) (entry "type" (leaf "" kind) end))

abbrev by_name : Tree → Outcome String
by_name = field_key tree_yaml "name"

abbrev old_executors : Tree
old_executors = seq "" (cons (executor "work" "asio") (cons (executor "io" "simple") nil))

abbrev new_executors : Tree
new_executors = seq "" (cons (executor "timer" "wheel") (cons (executor "io" "asio") nil))

abbrev merged_executors : Tree
merged_executors = seq "" (cons (executor "io" "asio") (cons (executor "timer" "wheel") nil))

named_is_defined : KeyedIsDefined tree_yaml by_name
unfolding field_key subscript as_string
named_is_defined missing name h = cc
named_is_defined nothing name h = cc
named_is_defined (leaf t s) name h = refl
named_is_defined (seq t xs) name h = refl
named_is_defined (obj t fs) name h = refl

executors_merged :
    merge_list tree_yaml (merge_map_handler tree_yaml) "name" old_executors new_executors
    ≡ ok merged_executors
unfolding merge_list merge_items merge_item find_item remove_unlisted is_listed field_key subscript
    as_string merge_map_handler merge_map merge_loop push_fields touch_fields touch over at
executors_merged = refl

-- each new executor is a map with one name
one_name_each : AllOneKey tree_yaml "name" (tree_yaml.items new_executors)
one_name_each = (
  record { value = leaf "" "timer"; is_a_map = refl; one = refl; found = refl; is_a_scalar = refl },
  (
    record { value = leaf "" "io"; is_a_map = refl; one = refl; found = refl; is_a_scalar = refl },
    tt,
  ),
)

names_of :
    (keys_of tree_yaml by_name (tree_yaml.items old_executors) ≡ ok ("work" ∷ "io" ∷ []))
    × (keys_of tree_yaml by_name (tree_yaml.items new_executors) ≡ ok ("timer" ∷ "io" ∷ []))
unfolding keys_of field_key subscript as_string
names_of = (refl, refl)

keys_of-merge_list_example :
    (keys_of tree_yaml by_name (tree_yaml.items merged_executors)
      ≡ ok (
          filter
            (λ k. elem k ("timer" ∷ "io" ∷ []))
            (add_keys ("work" ∷ "io" ∷ []) ("timer" ∷ "io" ∷ []))))
    × ((j : String)
        → elem j (
            filter
              (λ k. elem k ("timer" ∷ "io" ∷ []))
              (add_keys ("work" ∷ "io" ∷ []) ("timer" ∷ "io" ∷ [])))
          ≡ elem j ("timer" ∷ "io" ∷ []))
keys_of-merge_list_example =
    keys_of-merge_list tree_yaml "name" old_executors new_executors merged_executors
      ("work" ∷ "io" ∷ []) ("timer" ∷ "io" ∷ []) one_name_each named_is_defined refl refl names_of.0
      names_of.1 executors_merged

abbrev old_root : Tree
old_root = obj "" (
    entry "main_thread" (obj "" (entry "name" (leaf "" "main") end))
      (entry "executor" (obj "" (entry "executors" old_executors end)) end))

abbrev patch_root : Tree
patch_root = obj "" (
    entry "executor" (obj "" (entry "executors" (seq "" (cons (executor "io" "asio") nil)) end))
      end)

patch_root_runs : (c : Tree) × (patch_aimrt_node tree_yaml old_root patch_root ≡ ok c)
unfolding patch_aimrt_node when_defined ◌then_also◌ at_key patch_map_node unless_overridden
    patch_aimrt_log_node patch_aimrt_plugin_node patch_aimrt_channel_node patch_aimrt_rpc_node
    patch_aimrt_executor_node patch_aimrt_module_node subscript patch_list
    has_explicit_override_patch_mode extract_custom_tag strip_prefix text_eq patch_items patch_item
    analyze_patch_mode get_key field_key as_string find_item patch_existing do_override
    merge_map_handler merge_map merge_loop push_fields touch_fields touch over at
patch_root_runs = (_, refl)

patch_aimrt_node-Acts_example :
    Acts tree_yaml (patched_sections tree_yaml) old_root patch_root patch_root_runs.0
patch_aimrt_node-Acts_example =
    patch_aimrt_node-Acts tree_yaml old_root patch_root patch_root_runs.0 refl refl
      patch_root_runs.1

merge_root_runs : (c : Tree) × (merge_aimrt_node tree_yaml old_root patch_root ≡ ok c)
unfolding merge_aimrt_node when_defined ◌then_also◌ at_key merge_aimrt_log_node
    merge_aimrt_plugin_node merge_aimrt_channel_node merge_aimrt_rpc_node merge_aimrt_executor_node
    merge_aimrt_module_node subscript merge_list merge_items merge_item field_key as_string
    find_item remove_unlisted is_listed merge_map_handler merge_map merge_loop push_fields
    touch_fields touch over at
merge_root_runs = (_, refl)

abbrev topic : String → String → Tree
topic tag name = obj tag (entry "topic_name" (leaf "" name) end)

abbrev one_topic : Tree → Tree
one_topic t = obj "" (entry "pub_topics_options" (seq "" (cons t nil)) end)

abbrev mqtt : Tree → Tree
mqtt options = obj "" (entry "type" (leaf "" "mqtt") (entry "options" options end))

abbrev deleting : Tree
deleting = topic "tag:yaml.org,2002:delete" "/a"

abbrev topic_lists : List (String × String)
topic_lists = ("pub_topics_options", "topic_name") ∷ ("sub_topics_options", "topic_name") ∷ []

mqtt_patched :
    patch_map_node_with_sub_list tree_yaml topic_lists
      (mqtt (one_topic (topic "" "/a")))
      (mqtt (one_topic deleting))
    ≡ ok (mqtt (one_topic deleting))
unfolding patch_map_node_with_sub_list map_with_sub_list with_sub_list merge_map_handler merge_map
    merge_loop push_fields touch_fields touch over at
mqtt_patched = refl

-- the topic that was to be deleted stands there, its tag included
backend_lists_replaced_example :
    tree_yaml.field (tree_yaml.field (mqtt (one_topic deleting)) "options") "pub_topics_options"
    ≡ seq "" (cons deleting nil)
backend_lists_replaced_example =
    backend_lists_replaced tree_yaml topic_lists (mqtt (one_topic (topic "" "/a")))
      (mqtt (one_topic deleting)) (mqtt (one_topic deleting)) (leaf "" "mqtt") (one_topic deleting)
      (seq "" (cons deleting nil)) "pub_topics_options" refl refl refl refl refl refl refl refl refl
      mqtt_patched

merge_custom_nodes_lem_example :
    (tree_yaml.kind
        (merge_custom_nodes tree_yaml (("aimrt", nothing) ∷ ("mc", mqtt nothing) ∷ []) old_root)
      ≡ Kind.map)
    × (tree_yaml.field
          (merge_custom_nodes tree_yaml (("aimrt", nothing) ∷ ("mc", mqtt nothing) ∷ []) old_root)
          "mc"
        ≡ merge_named tree_yaml "mc" (("aimrt", nothing) ∷ ("mc", mqtt nothing) ∷ []) missing)
merge_custom_nodes_lem_example =
    merge_custom_nodes_lem tree_yaml (("aimrt", nothing) ∷ ("mc", mqtt nothing) ∷ []) old_root "mc"
      refl
