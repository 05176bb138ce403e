-- ===== src/Config/Deployment/Examples.antt =====
-- Runs of the search of the deployment file and of its network options (src/module/cfg.cpp).
use aimrt_comm.Base.{
  ℕ, String, ◌≡◌, refl, true, false, Option, none, some, [], ◌∷◌, if◌then◌else◌, str_eq,
}
use aimrt_comm.Base.Outcome.{ok}
use aimrt_comm.Utils.Text.{text_eq}
use aimrt_comm.Config.Yaml.Tree.{
  Tree, missing, nothing, leaf, seq, obj, nil, cons, end, entry, tree_yaml,
}
use aimrt_comm.Config.Items.{subscript}
use aimrt_comm.Config.Deployment.{
  find_first, is_process_name_match, is_app, is_there, node_or_absent, search_executables,
  search_spec, find_matching_node,
}
use aimrt_comm.Config.Deployment.Network.{
  Conversions, NetOptions, is_allowed, check_env_pairs, check_env_constraint, is_usable,
  find_net_plugin_config, read_port, configure_network_option, configure_all,
  get_network_plugin_options,
}
use aimrt_comm.Config.Deployment.Chosen.{Chosen, find_matching_node-Chosen}
use aimrt_comm.Config.Deployment.Named.{AsNamed, get_network_plugin_options-AsNamed}

-- the first part names the process among its executables, the second as its app
abbrev by_executables : Tree
by_executables =
    obj "" (entry "executable" (seq "" (cons (leaf "" "arm") (cons (leaf "" "robot") nil))) end)

abbrev only_here : Tree
only_here = obj "" (entry "env" (obj "" (entry "SITE" (leaf "" "lab") end)) end)

abbrev elsewhere : Tree
elsewhere = obj "" (
    entry "is_net_plugin" (leaf "" "true")
      (entry "constraint" only_here (entry "listen_port" (leaf "" "8080") end)))

abbrev by_app : Tree
by_app = obj "" (
    entry "app" (leaf "" "robot")
      (entry "net" (obj "" (entry "http" (seq "" (cons elsewhere nil)) end)) end))

abbrev parts : Tree
parts = seq "" (cons by_executables (cons by_app nil))

abbrev deployment : Tree
deployment = obj "" (entry "spec" parts end)

find_matching_node-Chosen_example : Chosen tree_yaml "robot" (by_executables ∷ by_app ∷ []) by_app
unfolding find_matching_node search_spec search_executables find_first is_app is_process_name_match
    subscript text_eq
find_matching_node-Chosen_example =
    find_matching_node-Chosen tree_yaml "robot" deployment parts refl refl refl

abbrev tree_conversions : Conversions Tree
tree_conversions = record {
  Int = ℕ;
  zero = 0;
  bool_or_false = λ n. elim n [
    | missing ↦ false
    | nothing ↦ false
    | leaf t s ↦ str_eq s "true"
    | seq t xs ↦ false
    | obj t fs ↦ false
  ];
  int_or_zero = λ n. 0;
  text_or_empty = λ n. "";
}

undefined_field :
    (n : Tree) (key : String)
    → is_there tree_yaml n ≡ false
    → is_there tree_yaml (tree_yaml.field n key) ≡ false
undefined_field missing key h = refl
undefined_field nothing key h = cc
undefined_field (leaf t s) key h = cc
undefined_field (seq t xs) key h = cc
undefined_field (obj t fs) key h = cc

abbrev no_variables : String → Option String
no_variables name = none

-- the site is not set, and yet the default options of http are there
abbrev options_read : NetOptions ℕ
options_read = record {
  thread_num = 2;
  http_options = some (record { listen_ip = "0.0.0.0"; listen_port = 0 });
  tcp_options = none;
  udp_options = none;
}

get_network_plugin_options-AsNamed_example : AsNamed tree_yaml ℕ by_app options_read
unfolding get_network_plugin_options configure_all configure_network_option read_port
    find_net_plugin_config is_usable check_env_constraint check_env_pairs find_first subscript
    node_or_absent
get_network_plugin_options-AsNamed_example =
    get_network_plugin_options-AsNamed tree_yaml tree_conversions no_variables undefined_field
      by_app refl

-- with the variable set, the entry's own port is read
abbrev at_lab : String → Option String
at_lab name = if str_eq name "SITE" then some "lab" else none

usable_at_lab : is_usable tree_yaml tree_conversions at_lab elsewhere ≡ ok true
unfolding is_usable check_env_constraint check_env_pairs is_allowed subscript
usable_at_lab = refl
