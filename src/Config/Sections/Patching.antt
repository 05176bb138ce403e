-- ===== src/Config/Sections/Patching.antt =====
-- `PatchAimRTNode` and its parts.
use aimrt_comm.Base.{String, List, [], ◌∷◌}
use aimrt_comm.Config.Yaml.{Yaml}
use aimrt_comm.Config.Items.{Handler, patch_list, merge_map_handler}
use aimrt_comm.Config.Sections.{
  at_key, map_with_sub_list, unless_overridden, when_defined, ◌then_also◌,
}

module _ (y : Yaml) where
  abbrev merge_map_at : String → Handler y
  merge_map_at key = at_key y (merge_map_handler y) key

  abbrev patch_list_at : String → String → Handler y
  patch_list_at key id_key = at_key y (patch_list y (merge_map_handler y) id_key) key

  unfoldable pub patch_map_node : Handler y
  patch_map_node = unless_overridden y (merge_map_handler y)

  unfoldable pub patch_map_node_with_sub_list : List (String × String) → Handler y
  patch_map_node_with_sub_list = map_with_sub_list y (patch_list y (merge_map_handler y))

  -- the handler of the topic and service options
  unfoldable pub patch_enabled : Handler y
  patch_enabled =
      ◌then_also◌ y (patch_list_at "enable_backends" "") (patch_list_at "enable_filters" "")

  abbrev patch_options_at : String → String → Handler y
  patch_options_at key id_key = at_key y (patch_list y patch_enabled id_key) key

  unfoldable pub patch_aimrt_log_node : Handler y
  patch_aimrt_log_node = unless_overridden y (
      ◌then_also◌ y (merge_map_at "core_lvl")
        (◌then_also◌ y (merge_map_at "default_module_lvl") (patch_list_at "backends" "type")))

  unfoldable pub patch_aimrt_plugin_node : Handler y
  patch_aimrt_plugin_node = unless_overridden y (patch_list_at "plugins" "name")

  unfoldable pub patch_aimrt_channel_node : Handler y
  patch_aimrt_channel_node = unless_overridden y (
      ◌then_also◌ y
        (at_key y
          (patch_list y
            (patch_map_node_with_sub_list
              (("pub_topics_options", "topic_name") ∷ ("sub_topics_options", "topic_name") ∷ []))
            "type")
          "backends")
        (◌then_also◌ y (patch_options_at "pub_topics_options" "topic_name")
          (patch_options_at "sub_topics_options" "topic_name")))

  unfoldable pub patch_aimrt_rpc_node : Handler y
  patch_aimrt_rpc_node = unless_overridden y (
      ◌then_also◌ y
        (at_key y
          (patch_list y
            (patch_map_node_with_sub_list
              (("servers_options", "func_name") ∷ ("clients_options", "func_name") ∷ []))
            "type")
          "backends")
        (◌then_also◌ y (patch_options_at "clients_options" "func_name")
          (patch_options_at "servers_options" "func_name")))

  unfoldable pub patch_aimrt_executor_node : Handler y
  patch_aimrt_executor_node = unless_overridden y (patch_list_at "executors" "name")

  unfoldable pub patch_aimrt_module_node : Handler y
  patch_aimrt_module_node =
      unless_overridden y
        (◌then_also◌ y (patch_list_at "pkgs" "path") (patch_list_at "modules" "name"))

  unfoldable pub patch_aimrt_node : Handler y
  patch_aimrt_node = when_defined y (
      ◌then_also◌ y (at_key y patch_map_node "configurator") (
        ◌then_also◌ y (at_key y patch_map_node "main_thread") (
          ◌then_also◌ y (at_key y patch_map_node "guard_thread") (
            ◌then_also◌ y (at_key y patch_aimrt_log_node "log") (
              ◌then_also◌ y (at_key y patch_aimrt_plugin_node "plugin") (
                ◌then_also◌ y (at_key y patch_aimrt_channel_node "channel") (
                  ◌then_also◌ y (at_key y patch_aimrt_rpc_node "rpc") (
                    ◌then_also◌ y (at_key y patch_aimrt_executor_node "executor")
                      (at_key y patch_aimrt_module_node "module")))))))))
