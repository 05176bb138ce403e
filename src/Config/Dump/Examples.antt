-- ===== src/Config/Dump/Examples.antt =====
-- A run of `DumpFile` on small files (src/module/cfg_processor.cpp).
use aimrt_comm.Base.{String, ◌≡◌, refl, sym, ap, [], ◌∷◌, if◌then◌else◌, str_eq}
use aimrt_comm.Base.Outcome.{Outcome, ok, fail, assertion}
use aimrt_comm.Utils.Text.{text_eq, strip_prefix}
use aimrt_comm.Config.Yaml.{Kind}
use aimrt_comm.Config.Yaml.Tree.{
  Tree, missing, nothing, leaf, seq, obj, nil, cons, end, entry, tree_yaml,
}
use aimrt_comm.Config.Modes.{
  extract_custom_tag, has_explicit_override_patch_mode, analyze_patch_mode,
}
use aimrt_comm.Config.Merge.Map.{at, over, touch, touch_fields, push_fields, merge_loop, merge_map}
use aimrt_comm.Config.Items.{
  subscript, as_string, field_key, get_key, find_item, patch_item, patch_items, patch_list,
  patch_existing, insert_new, do_override, merge_item, merge_items, is_listed, remove_unlisted,
  merge_list, merge_map_handler,
}
use aimrt_comm.Config.Sections.{at_key, unless_overridden, when_defined, ◌then_also◌}
use aimrt_comm.Config.Sections.Merging.{
  merge_aimrt_log_node, merge_aimrt_plugin_node, merge_aimrt_channel_node, merge_aimrt_rpc_node,
  merge_aimrt_executor_node, merge_aimrt_module_node, merge_aimrt_node, merge_custom_nodes,
}
use aimrt_comm.Config.Sections.Patching.{
  patch_map_node, patch_aimrt_log_node, patch_aimrt_plugin_node, patch_aimrt_channel_node,
  patch_aimrt_rpc_node, patch_aimrt_executor_node, patch_aimrt_module_node, patch_aimrt_node,
}
use aimrt_comm.Config.Dump.{
  Run, patch_root, patch_files, inject_root, read_ext, entries_after, dump_file,
}
use aimrt_comm.Config.Dump.Whole.{Dumped, dump_file-Dumped}

abbrev executor : String → String → String → Tree
executor mode name kind = obj mode (entry "name" (leaf "" name) (entry "type" (leaf "" kind) end))

abbrev executors : Tree → Tree
executors item =
    obj "" (entry "executor" (obj "" (entry "executors" (seq "" (cons item nil)) end)) end)

-- the modules have an executor "work", the user's file one of another type and a module's node
abbrev made : Tree
made =
    obj ""
      (entry "aimrt" (executors (executor "" "work" "asio")) (entry "Camera" (leaf "" "30") end))

abbrev user_file : Tree
user_file = obj "" (
    entry "aimrt" (executors (executor "" "work" "simple")) (
      entry "Camera" (leaf "" "60")
        (entry "aimrte" (executors (executor "!!override" "work" "timer")) end)))

-- the command line names a file that patches the executor again
abbrev last_file : Tree
last_file = obj "" (entry "aimrte" (executors (executor "!!override" "work" "wheel")) end)

abbrev read : String → Outcome Tree
read path =
    if str_eq path "user.yaml"
    then ok user_file
    else if str_eq path "last.yaml"
    then ok last_file
    else fail assertion

abbrev only_maps : Tree → Outcome Tree
only_maps (obj t fs) = ok (obj t fs)
only_maps _ = fail assertion

only_maps-map : (n m : Tree) → only_maps n ≡ ok m → tree_yaml.kind m ≡ Kind.map
only_maps-map (obj t fs) m h = let same : obj t fs ≡ m = cc in ap tree_yaml.kind (sym same)
only_maps-map missing m h = cc
only_maps-map nothing m h = cc
only_maps-map (leaf t s) m h = cc
only_maps-map (seq t xs) m h = cc

abbrev run : Run tree_yaml
run = record {
  made = made;
  cfg_file_path = "user.yaml";
  before = [];
  user = "last.yaml" ∷ [];
  after = [];
  read_yaml = read;
  inject = only_maps;
  aimrte_after = executors (executor "" "work" "wheel");
}

run_ends : (out : Tree) × (dump_file tree_yaml run ≡ ok out)
unfolding dump_file entries_after read_ext patch_root patch_files inject_root merge_custom_nodes
    merge_aimrt_node merge_aimrt_log_node merge_aimrt_plugin_node merge_aimrt_channel_node
    merge_aimrt_rpc_node merge_aimrt_executor_node merge_aimrt_module_node merge_list merge_items
    merge_item is_listed remove_unlisted patch_aimrt_node when_defined ◌then_also◌ at_key
    patch_map_node unless_overridden patch_aimrt_log_node patch_aimrt_plugin_node
    patch_aimrt_channel_node patch_aimrt_rpc_node patch_aimrt_executor_node patch_aimrt_module_node
    subscript patch_list has_explicit_override_patch_mode extract_custom_tag strip_prefix text_eq
    patch_items patch_item analyze_patch_mode get_key field_key as_string find_item patch_existing
    insert_new do_override merge_map_handler merge_map merge_loop push_fields touch_fields touch
    over at
run_ends = (_, refl)

dump_file-Dumped_example : Dumped tree_yaml run run_ends.0
dump_file-Dumped_example = dump_file-Dumped tree_yaml run run_ends.0 refl only_maps-map run_ends.1

-- the last patch decides
last_patch_decides :
    tree_yaml.field (tree_yaml.field run_ends.0 "aimrt") "executor"
    ≡ tree_yaml.field (executors (executor "" "work" "wheel")) "executor"
unfolding run_ends
last_patch_decides = refl
