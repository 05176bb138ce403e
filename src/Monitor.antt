-- ===== src/Monitor.antt =====
-- The monitor plugin (plugin/monitor/core): which backends a topic or a service goes through, the
-- registration with the RPC backend, and the data manager over the two frequency calculators. The
-- regular expressions and the sets of the standard library are arguments.
pub mod Laws
pub mod Kept
pub mod Examples
use aimrt_comm.Base.{
  ℕ, String, Bool, true, false, not, ◌||◌, ◌&&◌, Option, some, none, List, [], ◌∷◌, if◌then◌else◌,
}
use aimrt_comm.Base.Outcome.{Outcome, ok, fail, bad_conversion, ◌>>=◌}
use aimrt_comm.Utils.Text.{codes}
use aimrt_comm.Utils.TextOrder.{text_lt}
use aimrt_comm.Config.Yaml.{Kind, Yaml, is_sequence}
use aimrt_comm.Config.Items.{subscript, as_string, field_key}
use aimrt_comm.Topic.Calculator.{
  TopicInfo, Calculator, Stage, new_calculator, initialize, feed_topic,
}

-- what `std::regex_match` does with an expression: it may throw
pub data MatchResult : Type 0 where
  matches differs throws : MatchResult

abbrev pub Rules : Type 0
Rules = List (String × List String)

-- `GetBackendsByRules`, of both backends; `regex_match` takes the name, then the expression
unfoldable pub get_backends_by_rules :
    (String → String → MatchResult) → String → Rules → List String
get_backends_by_rules regex_match name [] = []
get_backends_by_rules regex_match name ((expr, enable_backends) ∷ rules) =
    elim (regex_match name expr) [
      | matches ↦ enable_backends
      | differs ↦ get_backends_by_rules regex_match name rules
      | throws ↦ get_backends_by_rules regex_match name rules
    ]

module _ (y : Yaml) where
  unfoldable pub as_strings : List y.Node → Outcome (List String)
  as_strings [] = ok []
  as_strings (n ∷ ns) = do s ← as_string y n; rest ← as_strings ns; ok (s ∷ rest)

  -- `as<std::vector<std::string>>()`
  unfoldable pub as_string_vector : y.Node → Outcome (List String)
  unfolding as_strings
  as_string_vector n =
      if is_sequence (y.kind n) then as_strings (y.items n) else fail bad_conversion

  -- the loop over the options
  unfoldable pub read_options : String → List y.Node → Outcome Rules
  unfolding as_string_vector
  read_options name_key [] = ok []
  read_options name_key (n ∷ ns) = do
    name ← field_key y name_key n
    backends_node ← subscript y n "enable_backends"
    enable_backends ← as_string_vector backends_node
    rest ← read_options name_key ns
    ok ((name, enable_backends) ∷ rest)

  abbrev pub is_defined : y.Node → Bool
  is_defined n = elim (y.kind n) [ Kind.undefined ↦ false | _ ↦ true ]

  -- the rules of a section of the `aimrt` node, such as `rpc` and `servers_options`
  unfoldable pub read_rules : String → String → String → y.Node → Outcome Rules
  unfolding read_options
  read_rules section options name_key aimrt_config = do
    part ← subscript y aimrt_config section
    if not (is_defined part) then ok [] else do
      list ← subscript y part options
      if is_sequence (y.kind list) then read_options name_key (y.items list) else ok []

pub data Status : Type 0 where
  init start shutdown : Status

-- `service_func_register_index_`, as the functions registered with package and module, and `status_`
pub record RpcBackend : Type 0 where
  pub status : Status
  pub service_funcs : List (String × String × String)

unfoldable pub register_service_func : String → String → String → RpcBackend → Bool × RpcBackend
register_service_func func_name pkg_path module_name b = elim b.status [
  | init ↦ (true, record b { service_funcs = (func_name, pkg_path, module_name) ∷ b.service_funcs })
  | start ↦ (false, b)
  | shutdown ↦ (false, b)
]

unfoldable pub register_client_func : RpcBackend → Bool × RpcBackend
register_client_func b = elim b.status [
  | init ↦ (true, b)
  | start ↦ (false, b)
  | shutdown ↦ (false, b)
]

unfoldable pub shutdown_backend : RpcBackend → RpcBackend
shutdown_backend b = elim b.status [
  | init ↦ record { status = shutdown; service_funcs = [] }
  | start ↦ record { status = shutdown; service_funcs = [] }
  | shutdown ↦ b
]

-- a topic as the plugin lists it
pub record MonitoredTopic : Type 0 where
  pub topic_name : String
  pub msg_type : String
  pub backends : List String

-- the loops of `MonitorChannelBackend::Start` over the registry's keys
unfoldable pub list_topics :
    (String → String → MatchResult) → Rules → List (String × String) → List MonitoredTopic
list_topics regex_match rules [] = []
list_topics regex_match rules ((name, type) ∷ keys) =
    record {
      topic_name = name;
      msg_type = type;
      backends = get_backends_by_rules regex_match name rules;
    }
    ∷ list_topics regex_match rules keys

-- a function as the plugin lists it
pub record RpcFuncInfo : Type 0 where
  pub func_name : String
  pub backends : List String
  pub req_type : String
  pub rsp_type : String

-- `operator<` of `RpcFuncInfo`, a conjunction of three orders (plugin/monitor/core/utils.h)
unfoldable pub rpc_less : RpcFuncInfo → RpcFuncInfo → Bool
rpc_less a b =
    text_lt (codes a.func_name) (codes b.func_name)
    && text_lt (codes a.req_type) (codes b.req_type)
    && text_lt (codes a.rsp_type) (codes b.rsp_type)

-- `insert` of `std::set` under a comparison, on the elements in the order of the set
abbrev pub Insert : Type 0
Insert = (RpcFuncInfo → RpcFuncInfo → Bool) → RpcFuncInfo → List RpcFuncInfo → List RpcFuncInfo

unfoldable pub func_info :
    (String → String → MatchResult) → Rules → String × String × String → RpcFuncInfo
func_info regex_match rules (name, req, rsp) = record {
  func_name = name;
  backends = get_backends_by_rules regex_match name rules;
  req_type = req;
  rsp_type = rsp;
}

-- the loops of `MonitorRpcBackend::Start` over the registry: name, request and response type; the set
-- is filled as they go
unfoldable pub list_funcs :
    (String → String → MatchResult)
    → Insert
    → Rules
    → List (String × String × String)
    → List RpcFuncInfo
    → List RpcFuncInfo
unfolding rpc_less func_info
list_funcs regex_match insert rules [] set = set
list_funcs regex_match insert rules (func ∷ funcs) set =
    list_funcs regex_match insert rules funcs
      (insert rpc_less (func_info regex_match rules func) set)

pub record DataManager : Type 0 where
  pub init_flag : Bool
  pub sub_topic_set : List MonitoredTopic
  pub pub_topic_set : List MonitoredTopic
  pub rpc_service_info_set : List RpcFuncInfo
  pub rpc_client_info_set : List RpcFuncInfo
  pub sub_topic_hz : Calculator
  pub pub_topic_hz : Calculator

-- the key that the calculators know a topic by: the process is left empty
abbrev pub hz_topic : String → String → TopicInfo
hz_topic name type = record { process_name = ""; topic_name = name; msg_type = type }

abbrev pub hz_topics : List MonitoredTopic → List TopicInfo
hz_topics [] = []
hz_topics (t ∷ ts) = hz_topic t.topic_name t.msg_type ∷ hz_topics ts

-- where `Initialize` throws, the list is set and the flag is not
unfoldable pub set_sub_topic_info_list : List MonitoredTopic → DataManager → DataManager
set_sub_topic_info_list ts m =
    let (accepted, calculator) = initialize (hz_topics ts) 5000 m.sub_topic_hz in
    record m {
      sub_topic_set = ts;
      sub_topic_hz = calculator;
      init_flag = if accepted then true else m.init_flag;
    }

unfoldable pub set_pub_topic_info_list : List MonitoredTopic → DataManager → DataManager
set_pub_topic_info_list ts m =
    let (accepted, calculator) = initialize (hz_topics ts) 5000 m.pub_topic_hz in
    record m {
      pub_topic_set = ts;
      pub_topic_hz = calculator;
      init_flag = if accepted then true else m.init_flag;
    }

unfoldable pub on_publish_filter : ℕ → String → String → DataManager → DataManager
on_publish_filter now name type m = record m {
  pub_topic_hz = feed_topic now (hz_topic name type) m.pub_topic_hz;
}

unfoldable pub on_subscribe_filter : ℕ → String → String → DataManager → DataManager
on_subscribe_filter now name type m = record m {
  sub_topic_hz = feed_topic now (hz_topic name type) m.sub_topic_hz;
}

unfoldable pub shut_down : DataManager → DataManager
shut_down m = record m { init_flag = false }

-- `MonitorRpcBackend::Start`
unfoldable pub start_rpc :
    (y : Yaml)
    → (String → String → MatchResult)
    → Insert
    → y.Node
    → List (String × String × String)
    → List (String × String × String)
    → DataManager
    → Outcome DataManager
unfolding read_rules list_funcs
start_rpc y regex_match insert aimrt_config services clients m = do
  server_rules ← read_rules y "rpc" "servers_options" "func_name" aimrt_config
  client_rules ← read_rules y "rpc" "clients_options" "func_name" aimrt_config
  ok (record m {
    rpc_client_info_set = list_funcs regex_match insert client_rules clients [];
    rpc_service_info_set = list_funcs regex_match insert server_rules services [];
  })
