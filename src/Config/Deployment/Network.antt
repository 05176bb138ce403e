-- ===== src/Config/Deployment/Network.antt =====
-- What the deployment says of the network: `Cfg::GetNetworkPluginOptions` (src/module/cfg.cpp) and
-- the options of the plugin (src/module/cfg/plugin.h).
use aimrt_comm.Base.{
  ℕ, String, Bool, true, false, ◌&&◌, Option, none, some, List, [], ◌∷◌, if◌then◌else◌, str_eq,
}
use aimrt_comm.Base.Outcome.{Outcome, ok, bad_conversion, of_option, ◌>>=◌}
use aimrt_comm.Config.Yaml.{Yaml, is_scalar, is_sequence, is_map, is_absent}
use aimrt_comm.Config.Items.{subscript}
use aimrt_comm.Config.Deployment.{find_first, any_text, is_there, node_or_absent}

-- `as<bool>(false)`, `as<int>(0)` and `as<std::string>("")`, which never throw
pub record Conversions (Node : Type 0) : Type 1 where
  pub Int : Type 0
  pub zero : Int
  pub bool_or_false : Node → Bool
  pub int_or_zero : Node → Int
  pub text_or_empty : Node → String

-- `HttpOption` and `TcpOption`
pub record PortOption (Int : Type 0) : Type 0 where
  pub listen_ip : String
  pub listen_port : Int

pub record UdpOption (Int : Type 0) : Type 0 where
  pub listen_ip : String
  pub listen_port : Int
  pub max_pkg_size : Option Int

pub record NetOptions (Int : Type 0) : Type 0 where
  pub thread_num : ℕ
  pub http_options : Option (PortOption Int)
  pub tcp_options : Option (PortOption Int)
  pub udp_options : Option (UdpOption Int)

abbrev pub no_options : (Int : Type 0) → NetOptions Int
no_options Int = record {
  thread_num = 2;
  http_options = none;
  tcp_options = none;
  udp_options = none;
}

module _ (y : Yaml) where
  open y use {Node, kind, absent, text?, items, entries}

  -- whether the value of a variable is among those that a constraint allows
  unfoldable pub is_allowed : String → Node → Outcome Bool
  is_allowed actual_value env_values =
      if is_sequence (kind env_values)
      then any_text y (λ allowed. str_eq allowed actual_value) (items env_values)
      else if is_scalar (kind env_values)
      then (of_option bad_conversion (text? env_values) >>= λ allowed.
          ok (str_eq allowed actual_value))
      else ok true

  unfoldable pub check_env_pairs : (String → Option String) → List (String × Node) → Outcome Bool
  check_env_pairs getenv [] = ok true
  check_env_pairs getenv ((env_name, env_values) ∷ pairs) =
      let rest = check_env_pairs getenv pairs in
      elim (getenv env_name) [
        | none ↦ ok false
        | some actual ↦ is_allowed actual env_values >>= λ fits. if fits then rest else ok false
      ]

  unfoldable pub check_env_constraint : (String → Option String) → Node → Outcome Bool
  check_env_constraint getenv constraint =
      if is_absent (kind constraint)
      then ok true
      else (subscript y constraint "env" >>= λ env.
          if is_map (kind env) then check_env_pairs getenv (entries env) else ok true)

  module _ (c : Conversions Node) where
    open c use {Int, int_or_zero, text_or_empty}

    -- the fields that all three protocols have
    unfoldable pub read_port : Node → Outcome (PortOption Int)
    read_port config = do
      port ← subscript y config "listen_port"
      ip ← subscript y config "listen_ip"
      ok (record {
        listen_ip = if is_there y ip then text_or_empty ip else "0.0.0.0";
        listen_port = if is_there y port then int_or_zero port else c.zero;
      })

    unfoldable pub read_udp : Node → Outcome (UdpOption Int)
    read_udp config = do
      option ← read_port config
      size ← subscript y config "max_pkg_size"
      ok (record {
        listen_ip = option.listen_ip;
        listen_port = option.listen_port;
        max_pkg_size = if is_there y size then some (int_or_zero size) else none;
      })

  module _ (c : Conversions Node) (getenv : String → Option String) where
    open c use {Int, bool_or_false}

    unfoldable pub is_usable : Node → Outcome Bool
    is_usable item = subscript y item "is_net_plugin" >>= λ flag.
        if is_there y flag && bool_or_false flag
        then (subscript y item "constraint" >>= check_env_constraint getenv)
        else ok false

    unfoldable pub find_net_plugin_config : Node → Outcome Node
    find_net_plugin_config node_array =
        if is_sequence (kind node_array)
        then (find_first is_usable (items node_array) >>= λ found. ok (node_or_absent y found))
        else ok absent

    -- a default-constructed node counts as defined
    unfoldable pub configure_network_option {ℓ} :
        {A : Type ℓ} → (Node → Outcome A) → Node → String → Outcome (Option A)
    configure_network_option read net_node node_key =
        subscript y net_node node_key >>= λ node_array.
        if is_there y node_array
        then (find_net_plugin_config node_array >>= λ config.
            if is_there y config then (read config >>= λ option. ok (some option)) else ok none)
        else ok none

    unfoldable pub configure_all : Node → Outcome (NetOptions Int)
    configure_all net_node = do
      http ← configure_network_option (read_port c) net_node "http"
      tcp ← configure_network_option (read_port c) net_node "tcp"
      udp ← configure_network_option (read_udp c) net_node "udp"
      ok (record { thread_num = 2; http_options = http; tcp_options = tcp; udp_options = udp })

    unfoldable pub get_network_plugin_options : Node → Outcome (NetOptions Int)
    get_network_plugin_options deployment_info = subscript y deployment_info "net" >>= λ net_node.
        if is_there y net_node then configure_all net_node else ok (no_options Int)
