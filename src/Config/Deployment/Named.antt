-- ===== src/Config/Deployment/Named.antt =====
-- When a protocol of the network has options.
use mathlib.Core.Path.{subst}
use aimrt_comm.Base.{
  String, ◌≡◌, refl, sym, ap, ◌∙◌, Bool, true, false, ◌&&◌, Option, none, some, List, if◌then◌else◌,
  Bool-cases, inl, inr,
}
use aimrt_comm.Base.Outcome.{Outcome, ok, ◌>>=◌, >>=-eq-ok, ok-injective}
use aimrt_comm.Config.Yaml.{Yaml, is_sequence, is_scalar, is_defined_kind}
use aimrt_comm.Config.Items.{subscript}
use aimrt_comm.Config.Deployment.{find_first, is_there, node_or_absent}
use aimrt_comm.Config.Deployment.Network.{
  Conversions, NetOptions, no_options, is_usable, find_net_plugin_config, read_port, read_udp,
  configure_network_option, configure_all, get_network_plugin_options,
}
use aimrt_comm.Config.Deployment.Chosen.{First, nowhere, here, later, find_first-First}

abbrev pub has_value {ℓ} : {A : Type ℓ} → Option A → Bool
has_value none = false
has_value (some a) = true

abbrev Passes {ℓ} : {A : Type ℓ} → (A → Outcome Bool) → Option A → Type 0
Passes test none = Unit
Passes test (some x) = test x ≡ ok true

First-Passes {ℓ} :
    {A : Type ℓ} (test : A → Outcome Bool) {xs : List A} {found : Option A}
    → First test xs found
    → Passes test found
First-Passes test nowhere = tt
First-Passes test (here x xs passed) = passed
First-Passes test (later x xs found failed rest) = First-Passes test rest

first_passed :
    (b u : Bool) (m : Outcome Bool) → (if b && u then m else ok false) ≡ ok true → b ≡ true
first_passed true u m h = refl
first_passed false u m h = cc

module _ (y : Yaml) where
  open y use {Node, kind, absent, items, field, kind-absent}

  -- whether the part of the deployment for this process names a protocol
  abbrev pub names : Node → String → Bool
  names deployment_info protocol_name =
      is_there y (field (field deployment_info "net") protocol_name)

  -- a protocol has options exactly where it is named
  pub record AsNamed (Int : Type 0) (info : Node) (options : NetOptions Int) : Type 0 where
    pub http : has_value options.http_options ≡ names info "http"
    pub tcp : has_value options.tcp_options ≡ names info "tcp"
    pub udp : has_value options.udp_options ≡ names info "udp"

  subscript-field :
      (n : Node) (key : String) {c : Node} → subscript y n key ≡ ok c → field n key ≡ c
  unfolding subscript
  subscript-field n key h = elim (Bool-cases (is_scalar (kind n))) [ inl e ↦ cc | inr e ↦ cc ]

  module _ (c : Conversions Node) (getenv : String → Option String)
      (missing_field : (n : Node) (key : String)
        → is_there y n ≡ false
        → is_there y (field n key) ≡ false) where
    usable_is_there : (item : Node) → is_usable y c getenv item ≡ ok true → is_there y item ≡ true
    unfolding is_usable
    usable_is_there item h = elim (Bool-cases (is_there y item)) [
      | inl e ↦ e
      | inr e ↦
          let (flag, at_flag, went) = >>=-eq-ok (subscript y item "is_net_plugin") _ h in
          let gone = missing_field item "is_net_plugin" e in
          let same = subscript-field item "is_net_plugin" at_flag in
          let there = first_passed (is_there y flag) _ _ went in cc
    ]

    found_is_there :
        (found : Option Node)
        → Passes (is_usable y c getenv) found
        → is_there y (node_or_absent y found) ≡ true
    unfolding node_or_absent
    found_is_there none passes = ap is_defined_kind kind-absent
    found_is_there (some item) passes = usable_is_there item passes

    listed :
        (node_array : Node) {config : Node}
        → find_net_plugin_config y c getenv node_array ≡ ok config
        → is_sequence (kind node_array) ≡ true
        → (find_first (is_usable y c getenv) (items node_array) >>= λ found.
            ok (node_or_absent y found))
          ≡ ok config
    unfolding find_net_plugin_config
    listed node_array h e = cc

    unlisted :
        (node_array : Node) {config : Node}
        → find_net_plugin_config y c getenv node_array ≡ ok config
        → is_sequence (kind node_array) ≡ false
        → ok absent ≡ ok config
    unfolding find_net_plugin_config
    unlisted node_array h e = cc

    config_is_there :
        (node_array : Node) {config : Node}
        → find_net_plugin_config y c getenv node_array ≡ ok config
        → is_there y config ≡ true
    unfolding node_or_absent
    config_is_there node_array {config} h = elim (Bool-cases (is_sequence (kind node_array))) [
      | inl e ↦
          let (found, ran, went) =
            >>=-eq-ok (find_first (is_usable y c getenv) (items node_array)) _
              (listed node_array h e) in
          let passes = First-Passes _ (find_first-First _ _ ran) in
          ap (is_there y) (sym (ok-injective went)) ∙ found_is_there found passes
      | inr e ↦
          let same = ok-injective (unlisted node_array h e) in
          ap (is_there y) (sym same) ∙ found_is_there none tt
    ]

    module _ {ℓ} {A : Type ℓ} (read : Node → Outcome A) where
      configured_as :
          (node_array config : Node) {option : Option A}
          → is_there y config ≡ true
          → (if is_there y config then (read config >>= λ o. ok (some o)) else ok none) ≡ ok option
          → has_value option ≡ true
      configured_as node_array config {option} there h =
          let read_it : (read config >>= λ o. ok (some o)) ≡ ok option = cc in
          let (o, ran, went) = >>=-eq-ok (read config) _ read_it in
          ap has_value (sym (ok-injective went))

      configured_if :
          (node_array : Node) (named : Bool) {option : Option A}
          → (if named
              then (find_net_plugin_config y c getenv node_array >>= λ config.
                  if is_there y config then (read config >>= λ o. ok (some o)) else ok none)
              else ok none)
            ≡ ok option
          → has_value option ≡ named
      configured_if node_array false h = ap has_value (sym (ok-injective h))
      configured_if node_array true h =
          let (config, found, went) =
            >>=-eq-ok (find_net_plugin_config y c getenv node_array) _ h in
          configured_as node_array config (config_is_there node_array found) went

      configured :
          (net_node : Node) (key : String) {option : Option A}
          → configure_network_option y c getenv read net_node key ≡ ok option
          → has_value option ≡ is_there y (field net_node key)
      unfolding configure_network_option
      configured net_node key h =
          let (node_array, at_key, went) = >>=-eq-ok (subscript y net_node key) _ h in
          configured_if node_array (is_there y node_array) went
          ∙ ap (is_there y) (sym (subscript-field net_node key at_key))

    configure_all-AsNamed :
        (info net_node : Node) {options : NetOptions c.Int}
        → field info "net" ≡ net_node
        → configure_all y c getenv net_node ≡ ok options
        → AsNamed c.Int info options
    unfolding configure_all
    configure_all-AsNamed info net_node {options} same h =
        let (http, read_http, then_tcp) =
          >>=-eq-ok (configure_network_option y c getenv (read_port y c) net_node "http") _ h in
        let (tcp, read_tcp, then_udp) =
          >>=-eq-ok (configure_network_option y c getenv (read_port y c) net_node "tcp") _
            then_tcp in
        let (udp, read_udp_option, made) =
          >>=-eq-ok (configure_network_option y c getenv (read_udp y c) net_node "udp") _
            then_udp in
        let at = λ (key : String). ap (λ n. is_there y (field n key)) (sym same) in
        subst (λ o. AsNamed c.Int info o) (ok-injective made)
          (record {
            http = configured (read_port y c) net_node "http" read_http ∙ at "http";
            tcp = configured (read_port y c) net_node "tcp" read_tcp ∙ at "tcp";
            udp = configured (read_udp y c) net_node "udp" read_udp_option ∙ at "udp";
          })

    no_options-AsNamed :
        (info : Node)
        → is_there y (field info "net") ≡ false
        → AsNamed c.Int info (no_options c.Int)
    no_options-AsNamed info e =
        let no = λ (key : String). sym (missing_field (field info "net") key e) in
        record { http = no "http"; tcp = no "tcp"; udp = no "udp" }

    branch-AsNamed :
        (info net_node : Node) (there : Bool) {options : NetOptions c.Int}
        → is_there y net_node ≡ there
        → field info "net" ≡ net_node
        → (if there then configure_all y c getenv net_node else ok (no_options c.Int)) ≡ ok options
        → AsNamed c.Int info options
    branch-AsNamed info net_node true e same h = configure_all-AsNamed info net_node same h
    branch-AsNamed info net_node false e same h =
        subst (λ o. AsNamed c.Int info o) (ok-injective h)
          (no_options-AsNamed info (ap (is_there y) same ∙ e))

    -- When the options are read without an exception, each of the three protocols has options exactly
    -- where the deployment's `net` has an entry of its name: also where no plugin of the entry is
    -- marked as a net plugin or fits the environment. It is assumed that an undefined node has no
    -- defined fields.
    pub get_network_plugin_options-AsNamed :
        (info : Node) {options : NetOptions c.Int}
        → get_network_plugin_options y c getenv info ≡ ok options
        → AsNamed c.Int info options
    unfolding get_network_plugin_options
    get_network_plugin_options-AsNamed info h =
        let (net_node, at_net, went) = >>=-eq-ok (subscript y info "net") _ h in
        branch-AsNamed info net_node (is_there y net_node) refl (subscript-field info "net" at_net)
          went
