-- ===== src/Config/Sections/Merging.antt =====
-- `MergeAimRTNode` and its parts.
use aimrt_comm.Base.{String, List, [], ◌∷◌, if◌then◌else◌, str_eq}
use aimrt_comm.Config.Merge.Map.{merge_map}
use aimrt_comm.Config.Yaml.{Yaml}
use aimrt_comm.Config.Items.{Handler, merge_list, merge_map_handler}
use aimrt_comm.Config.Sections.{at_key, map_with_sub_list, when_defined, ◌then_also◌}

module _ (y : Yaml) where
  abbrev merge_map_at : String → Handler y
  merge_map_at key = at_key y (merge_map_handler y) key

  abbrev merge_list_at : String → String → Handler y
  merge_list_at key id_key = at_key y (merge_list y (merge_map_handler y) id_key) key

  unfoldable pub merge_map_node_with_sub_list : List (String × String) → Handler y
  merge_map_node_with_sub_list = map_with_sub_list y (merge_list y (merge_map_handler y))

  unfoldable pub merge_aimrt_log_node : Handler y
  merge_aimrt_log_node = when_defined y (
      ◌then_also◌ y (merge_map_at "core_lvl")
        (◌then_also◌ y (merge_map_at "default_module_lvl") (merge_list_at "backends" "type")))

  unfoldable pub merge_aimrt_plugin_node : Handler y
  merge_aimrt_plugin_node = when_defined y (merge_list_at "plugins" "name")

  unfoldable pub merge_aimrt_channel_node : Handler y
  merge_aimrt_channel_node = when_defined y (
      ◌then_also◌ y
        (at_key y
          (merge_list y
            (merge_map_node_with_sub_list
              (("pub_topics_options", "topic_name") ∷ ("sub_topics_options", "topic_name") ∷ []))
            "type")
          "backends")
        (◌then_also◌ y (merge_list_at "pub_topics_options" "topic_name")
          (merge_list_at "sub_topics_options" "topic_name")))

  unfoldable pub merge_aimrt_rpc_node : Handler y
  merge_aimrt_rpc_node = when_defined y (
      ◌then_also◌ y
        (at_key y
          (merge_list y
            (merge_map_node_with_sub_list
              (("servers_options", "func_name") ∷ ("clients_options", "func_name") ∷ []))
            "type")
          "backends")
        (◌then_also◌ y (merge_list_at "clients_options" "func_name")
          (merge_list_at "servers_options" "func_name")))

  unfoldable pub merge_aimrt_executor_node : Handler y
  merge_aimrt_executor_node = when_defined y (merge_list_at "executors" "name")

  unfoldable pub merge_aimrt_module_node : Handler y
  merge_aimrt_module_node =
      when_defined y (◌then_also◌ y (merge_map_at "pkgs") (merge_list_at "modules" "name"))

  unfoldable pub merge_aimrt_node : Handler y
  merge_aimrt_node = when_defined y (
      ◌then_also◌ y (merge_map_at "configurator") (
        ◌then_also◌ y (merge_map_at "main_thread") (
          ◌then_also◌ y (merge_map_at "guard_thread") (
            ◌then_also◌ y (at_key y merge_aimrt_log_node "log") (
              ◌then_also◌ y (at_key y merge_aimrt_plugin_node "plugin") (
                ◌then_also◌ y (at_key y merge_aimrt_channel_node "channel") (
                  ◌then_also◌ y (at_key y merge_aimrt_rpc_node "rpc") (
                    ◌then_also◌ y (at_key y merge_aimrt_executor_node "executor")
                      (at_key y merge_aimrt_module_node "module")))))))))

  -- the loop of `MergeCustomNodes` over the root nodes other than `aimrt`
  unfoldable pub merge_custom_nodes : List (String × y.Node) → y.Node → y.Node
  merge_custom_nodes [] root = root
  merge_custom_nodes ((name, ext) ∷ es) root =
      let skipped = merge_custom_nodes es root in
      let merged =
        merge_custom_nodes es (y.set_field root name (merge_map y (y.field root name) ext)) in
      if str_eq name "aimrt" then skipped else merged
