-- ===== src/Monitor/Examples.antt =====
-- Runs of the monitor plugin (plugin/monitor/core).
use aimrt_comm.Base.{String, ◌≡◌, refl, false, [], ◌∷◌, str_eq, if◌then◌else◌}
use aimrt_comm.Topic.Calculator.{new_calculator}
use aimrt_comm.Monitor.{MatchResult, matches, differs, throws, MonitoredTopic, DataManager}
use aimrt_comm.Base.Outcome.{ok}
use aimrt_comm.Config.Yaml.Tree.{Tree, leaf, seq, obj, nil, cons, end, entry, tree_yaml}
use aimrt_comm.Config.Items.{field_key, subscript, as_string}
use aimrt_comm.Monitor.{
  read_rules, read_options, as_string_vector, as_strings, start_rpc, Insert, func_info,
}
use aimrt_comm.Monitor.Kept.{ActsAsSet, start_rpc-shared}

-- an expression matches itself and `(.*)` matches anything; `(` is no expression
abbrev matching : String → String → MatchResult
matching name expr =
    if str_eq expr "("
    then throws
    else if str_eq expr "(.*)"
    then matches
    else if str_eq expr name
    then matches
    else differs

abbrev idle : DataManager
idle = record {
  init_flag = false;
  sub_topic_set = [];
  pub_topic_set = [];
  rpc_service_info_set = [];
  rpc_client_info_set = [];
  sub_topic_hz = new_calculator;
  pub_topic_hz = new_calculator;
}

abbrev pose : MonitoredTopic
pose = record { topic_name = "/pose"; msg_type = "Pose"; backends = [] }

abbrev rpc_config : Tree
rpc_config = obj "" (
    entry "rpc"
      (obj "" (
        entry "servers_options"
          (seq "" (
            cons
              (obj "" (
                entry "func_name" (leaf "" "(.*)")
                  (entry "enable_backends" (seq "" (cons (leaf "" "http") nil)) end)))
              nil))
          end))
      end)

server_rules :
    (read_rules tree_yaml "rpc" "servers_options" "func_name" rpc_config
      ≡ ok (("(.*)", "http" ∷ []) ∷ []))
    × (read_rules tree_yaml "rpc" "clients_options" "func_name" rpc_config ≡ ok [])
unfolding read_rules read_options as_string_vector as_strings field_key subscript as_string
server_rules = (refl, refl)

-- a set that puts a new element where it is the least
abbrev put : Insert
put less x [] = x ∷ []
put less x (e ∷ es) =
    if less x e then x ∷ e ∷ es else if less e x then e ∷ put less x es else e ∷ es

put-ActsAsSet : ActsAsSet put
put-ActsAsSet = record {
  insert-empty = λ less x. refl;
  insert-equivalent = λ less x e h k. rw (h, k) refl;
}

-- two services with the same request type: the second is not listed
start_rpc-shared_example :
    (out : DataManager) × (start_rpc tree_yaml matching put rpc_config
        (("/stop", "Empty", "Done") ∷ ("/pose", "Empty", "Pose") ∷ [])
        []
        idle
      ≡ ok out)
    × (out.rpc_service_info_set
        ≡ func_info matching (("(.*)", "http" ∷ []) ∷ []) ("/stop", "Empty", "Done") ∷ [])
start_rpc-shared_example =
    start_rpc-shared tree_yaml matching put rpc_config ("/stop", "Empty", "Done")
      (("/pose", "Empty", "Pose") ∷ []) [] idle (("(.*)", "http" ∷ []) ∷ []) [] put-ActsAsSet
      (refl, tt) server_rules.0 server_rules.1
