-- ===== src/Monitor/Kept.antt =====
-- Which functions of the registry are kept in the monitor's sets (plugin/monitor/core).
use aimrt_comm.Base.{
  String, ◌≡◌, refl, sym, ap, ◌∙◌, Bool, true, false, ◌&&◌, ◌||◌, List, [], ◌∷◌, str_eq, str_eq→eq,
  arith, Bool-cases, inl, inr,
}
use aimrt_comm.Base.Outcome.{ok}
use aimrt_comm.Utils.Text.{codes}
use aimrt_comm.Utils.TextOrder.{text_lt, text_lt_irrefl}
use aimrt_comm.Config.Yaml.{Yaml}
use aimrt_comm.Monitor.{
  MatchResult, Rules, RpcFuncInfo, rpc_less, Insert, func_info, list_funcs, DataManager, read_rules,
  start_rpc,
}

-- what the standard says of a set with at most one element: the first is inserted, and one that is
-- equivalent to it, neither being less, is not
pub record ActsAsSet (insert : Insert) : Type 0 where
  pub insert-empty :
      (less : RpcFuncInfo → RpcFuncInfo → Bool) (x : RpcFuncInfo) → insert less x [] ≡ x ∷ []
  pub insert-equivalent :
      (less : RpcFuncInfo → RpcFuncInfo → Bool) (x e : RpcFuncInfo)
      → less x e ≡ false
      → less e x ≡ false
      → insert less x (e ∷ []) ≡ e ∷ []

-- whether two functions have the request type or the response type in common
abbrev pub shares_type : String × String × String → String × String × String → Bool
shares_type (name, req, rsp) (name', req', rsp') = str_eq req req' || str_eq rsp rsp'

abbrev pub AllShare : String × String × String → List (String × String × String) → Type 0
AllShare first [] = Unit
AllShare first (func ∷ funcs) = (shares_type first func ≡ true) × AllShare first funcs

same_not_less : (s t : String) → s ≡ t → text_lt (codes s) (codes t) ≡ false
same_not_less s t h = ap (λ r. text_lt (codes s) (codes r)) (sym h) ∙ text_lt_irrefl (codes s)

not_less_by_request : (a b : RpcFuncInfo) → a.req_type ≡ b.req_type → rpc_less a b ≡ false
unfolding rpc_less
not_less_by_request a b h = rw (same_not_less a.req_type b.req_type h) (
    and_false (text_lt (codes a.func_name) (codes b.func_name))
      (text_lt (codes a.rsp_type) (codes b.rsp_type)))
  where
    and_false : (a b : Bool) → (a && false && b) ≡ false
    and_false a b = ground arith

not_less_by_response : (a b : RpcFuncInfo) → a.rsp_type ≡ b.rsp_type → rpc_less a b ≡ false
unfolding rpc_less
not_less_by_response a b h = rw (same_not_less a.rsp_type b.rsp_type h) (
    and_false (text_lt (codes a.func_name) (codes b.func_name))
      (text_lt (codes a.req_type) (codes b.req_type)))
  where
    and_false : (a b : Bool) → (a && b && false) ≡ false
    and_false a b = ground arith

module _ (regex_match : String → String → MatchResult) (rules : Rules) where
  shared_not_less :
      (f g : String × String × String)
      → shares_type f g ≡ true
      → (rpc_less (func_info regex_match rules f) (func_info regex_match rules g) ≡ false)
        × (rpc_less (func_info regex_match rules g) (func_info regex_match rules f) ≡ false)
  unfolding func_info
  shared_not_less (name, req, rsp) (name', req', rsp') h =
      let f = func_info regex_match rules (name, req, rsp) in
      let g = func_info regex_match rules (name', req', rsp') in
      elim (Bool-cases (str_eq req req')) [
        | inl e ↦
            (let same = str_eq→eq req req' e in
              (not_less_by_request f g same, not_less_by_request g f (sym same)))
        | inr e ↦
            (let same = str_eq→eq rsp rsp' (rw e at h) in
              (not_less_by_response f g same, not_less_by_response g f (sym same)))
      ]

  only_first :
      (insert : Insert) (first : String × String × String) (funcs : List (String × String × String))
      → ActsAsSet insert
      → AllShare first funcs
      → list_funcs regex_match insert rules funcs (func_info regex_match rules first ∷ [])
        ≡ func_info regex_match rules first ∷ []
  unfolding list_funcs
  only_first insert first [] is_set shared = refl
  only_first insert first (func ∷ funcs) is_set (one, shared) =
      let (less, more) = shared_not_less first func one in
      ap (list_funcs regex_match insert rules funcs) (
        is_set.insert-equivalent rpc_less (func_info regex_match rules func)
          (func_info regex_match rules first) more less)
      ∙ only_first insert first funcs is_set shared

  -- Functions of which each later one has the request type or the response type of the first: only the
  -- first of them is in the set.
  pub list_funcs-shared :
      (insert : Insert) (first : String × String × String) (funcs : List (String × String × String))
      → ActsAsSet insert
      → AllShare first funcs
      → list_funcs regex_match insert rules (first ∷ funcs) []
        ≡ func_info regex_match rules first ∷ []
  unfolding list_funcs
  list_funcs-shared insert first funcs is_set shared =
      ap (list_funcs regex_match insert rules funcs)
        (is_set.insert-empty rpc_less (func_info regex_match rules first))
      ∙ only_first insert first funcs is_set shared

-- Where the options are read and each later service has the request type or the response type of the
-- first, the monitor lists the first service alone, whatever the others are called.
pub start_rpc-shared :
    (y : Yaml) (regex_match : String → String → MatchResult) (insert : Insert) (config : y.Node)
    (first : String × String × String) (services clients : List (String × String × String))
    (m : DataManager) (server_rules client_rules : Rules)
    → ActsAsSet insert
    → AllShare first services
    → read_rules y "rpc" "servers_options" "func_name" config ≡ ok server_rules
    → read_rules y "rpc" "clients_options" "func_name" config ≡ ok client_rules
    → (out : DataManager) × (start_rpc y regex_match insert config (first ∷ services) clients m
        ≡ ok out)
      × (out.rpc_service_info_set ≡ func_info regex_match server_rules first ∷ [])
unfolding start_rpc
start_rpc-shared y regex_match insert config first services clients m server_rules client_rules
      is_set shared s c =
    (
      record m {
        rpc_client_info_set = list_funcs regex_match insert client_rules clients [];
        rpc_service_info_set = list_funcs regex_match insert server_rules (first ∷ services) [];
      },
      rw (s, c) refl,
      list_funcs-shared regex_match server_rules insert first services is_set shared,
    )
