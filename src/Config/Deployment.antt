-- ===== src/Config/Deployment.antt =====
-- The part of the deployment file that is about this process: `GetDeploymentYaml` and
-- `Cfg::GetModuleDeploymentInfo` (src/module/cfg.cpp).
pub mod Network
pub mod Chosen
pub mod Named
mod Examples
use aimrt_comm.Base.{
  String, Bool, true, false, ◌||◌, Option, none, some, List, [], ◌∷◌, ◌++◌, if◌then◌else◌, str_eq,
}
use aimrt_comm.Base.Outcome.{Outcome, ok, bad_conversion, of_option, ◌>>=◌}
use aimrt_comm.Utils.Text.{codes, text_eq}
use aimrt_comm.Config.Yaml.{Yaml, is_scalar, is_sequence, is_absent, is_defined_kind}
use aimrt_comm.Config.Items.{subscript}

-- the `return` in a loop: the first element that passes the test
unfoldable pub find_first {ℓ} : {A : Type ℓ} → (A → Outcome Bool) → List A → Outcome (Option A)
find_first test [] = ok none
find_first test (x ∷ xs) =
    let rest = find_first test xs in test x >>= λ hit. if hit then ok (some x) else rest

unfoldable pub is_process_name_match : String → String → Bool
is_process_name_match process_name name =
    str_eq name process_name || text_eq (codes name ++ codes "_UNNAMED") (codes process_name)

module _ (y : Yaml) where
  open y use {Node, kind, absent, text?, items, field}

  -- a test of the texts of a sequence
  unfoldable pub any_text : (String → Bool) → List Node → Outcome Bool
  any_text test [] = ok false
  any_text test (n ∷ ns) =
      let rest = any_text test ns in
      of_option bad_conversion (text? n) >>= λ text. if test text then ok true else rest

  -- `n[key].IsDefined()`, of the kind
  abbrev pub is_there : Node → Bool
  is_there n = is_defined_kind (kind n)

  unfoldable pub check_executable_match : String → Node → Outcome Bool
  check_executable_match process_name n =
      if is_scalar (kind n)
      then (of_option bad_conversion (text? n) >>= λ name.
          ok (is_process_name_match process_name name))
      else if is_sequence (kind n)
      then any_text (is_process_name_match process_name) (items n)
      else ok false

  -- the tests of the two loops over `spec`
  unfoldable pub is_app : String → Node → Outcome Bool
  is_app process_name node = subscript y node "app" >>= λ app.
      if is_there app
      then (of_option bad_conversion (text? app) >>= λ name.
          ok (is_process_name_match process_name name))
      else ok false

  unfoldable pub is_executable : String → Node → Outcome Bool
  is_executable process_name node = subscript y node "executable" >>= λ executable.
      if is_there executable then check_executable_match process_name executable else ok false

  unfoldable pub node_or_absent : Option Node → Node
  node_or_absent none = absent
  node_or_absent (some n) = n

  -- the second loop, which runs where the first has returned nothing
  unfoldable pub search_executables : String → List Node → Option Node → Outcome Node
  search_executables process_name nodes (some node) = ok node
  search_executables process_name nodes none =
      find_first (is_executable process_name) nodes >>= λ found. ok (node_or_absent found)

  unfoldable pub search_spec : String → List Node → Outcome Node
  search_spec process_name nodes =
      find_first (is_app process_name) nodes >>= search_executables process_name nodes

  unfoldable pub find_matching_node : String → Node → Outcome Node
  find_matching_node process_name deployment = subscript y deployment "spec" >>= λ spec.
      if is_sequence (kind spec) then search_spec process_name (items spec) else ok absent

  -- reading is `none` for a file that does not open or that is no document; both are only reported
  unfoldable pub get_deployment_yaml : (String → Option Node) → String → Node
  get_deployment_yaml read path = node_or_absent (read path)

  -- `expand` puts the variables of the environment into a document
  unfoldable pub get_module_deployment_info :
      (String → Option Node) → (Node → Outcome Node) → String → String → Outcome Node
  get_module_deployment_info read expand path process_name =
      (if str_eq path ""
        then ok absent
        else find_matching_node process_name (get_deployment_yaml read path))
      >>= λ info. if is_absent (kind info) then ok absent else expand info
