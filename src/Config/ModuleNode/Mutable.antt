-- ===== src/Config/ModuleNode/Mutable.antt =====
-- The configuration of a module that is handed out for changes: `Cfg::GetMutableModuleConfigYaml`
-- (src/module/cfg.cpp).
use aimrt_comm.Base.{
  String, ◌≡◌, refl, sym, ap, ◌∙◌, Bool, true, false, List, if◌then◌else◌, str_eq_refl,
}
use aimrt_comm.Base.Outcome.{Outcome, ok, ◌>>=◌, >>=-eq-ok, ok-injective}
use aimrt_comm.Config.Yaml.{Kind, Yaml, is_absent}
use aimrt_comm.Config.Items.{subscript}
use aimrt_comm.Config.ModuleNode.{OwnFile, get_module_config_yaml, get_mutable_module_config_yaml}

module _ (y : Yaml) where
  open y use {Node, kind, field, set_field, field-set_field, kind-set_field}

  subscript-map :
      (n : Node) (key : String) → kind n ≡ Kind.map → subscript y n key ≡ ok (field n key)
  unfolding subscript
  subscript-map n key h = rw h refl

  stored :
      (n v : Node) (key : String) → kind n ≡ Kind.map → subscript y (set_field n key v) key ≡ ok v
  stored n v key h =
      subscript-map (set_field n key v) key (kind-set_field n key v h)
      ∙ ap ok (field-set_field n key key v h ∙ rw (str_eq_refl key) refl)

  abbrev gives : Node → Node → Outcome (Node × Node)
  gives n modules_config = ok (n, modules_config)

  held_before :
      (module_name : String) (mod_cfg modules_config n after : Node)
      → subscript y modules_config module_name ≡ ok mod_cfg
      → gives mod_cfg modules_config ≡ gives n after
      → subscript y after module_name ≡ ok n
  held_before module_name mod_cfg modules_config n after at_name h =
      let same = ok-injective h in
      let left = ap (λ p. p.0) same in
      let right = ap (λ p. p.1) same in
      ap (λ c. subscript y c module_name) (sym right) ∙ at_name ∙ ap ok left

  held_if_found :
      (module_name : String) (mod_cfg modules_config v n after : Node) (gone : Bool)
      → kind modules_config ≡ Kind.map
      → is_absent (kind mod_cfg) ≡ true
      → is_absent (kind n) ≡ false
      → (if gone
          then gives mod_cfg modules_config
          else gives v (set_field modules_config module_name v))
        ≡ gives n after
      → subscript y after module_name ≡ ok n
  held_if_found module_name mod_cfg modules_config v n after true is_map missed given h =
      let same = ap (λ p. p.0) (ok-injective h) in cc
  held_if_found module_name mod_cfg modules_config v n after false is_map missed given h =
      held_before module_name v (set_field modules_config module_name v) n after
        (stored modules_config v module_name is_map) h

  held_if :
      (run : Outcome Node) (module_name : String) (mod_cfg modules_config n after : Node)
      (gone : Bool)
      → kind modules_config ≡ Kind.map
      → subscript y modules_config module_name ≡ ok mod_cfg
      → is_absent (kind mod_cfg) ≡ gone
      → is_absent (kind n) ≡ false
      → (if gone
          then (run >>= λ v.
              if is_absent (kind v)
              then gives mod_cfg modules_config
              else gives v (set_field modules_config module_name v))
          else gives mod_cfg modules_config)
        ≡ gives n after
      → subscript y after module_name ≡ ok n
  held_if run module_name mod_cfg modules_config n after false is_map at_name missed given h =
      held_before module_name mod_cfg modules_config n after at_name h
  held_if run module_name mod_cfg modules_config n after true is_map at_name missed given h =
      let (v, ran, went) = >>=-eq-ok run _ h in
      held_if_found module_name mod_cfg modules_config v n after (is_absent (kind v)) is_map missed
        given went

  -- Once a call has given a node that is not null, a later call gives the same node and changes
  -- nothing, whatever the files, the environment and the modules' own paths are by then, where the
  -- configurations are a map.
  pub get_mutable_module_config_yaml-again :
      (load_file load_later : String → Outcome Node) (expand expand_later : Node → Outcome Node)
      (path path_later : String) (modules modules_later : List OwnFile)
      (modules_config n after : Node) (module_name : String)
      → kind modules_config ≡ Kind.map
      → is_absent (kind n) ≡ false
      → get_mutable_module_config_yaml y load_file expand path modules modules_config module_name
        ≡ ok (n, after)
      → get_mutable_module_config_yaml y load_later expand_later path_later modules_later after
          module_name
        ≡ ok (n, after)
  unfolding get_mutable_module_config_yaml
  get_mutable_module_config_yaml-again load_file load_later expand expand_later path path_later
        modules modules_later modules_config n after module_name is_map given h =
      let (mod_cfg, at_name, went) = >>=-eq-ok (subscript y modules_config module_name) _ h in
      let held =
        held_if (get_module_config_yaml y load_file expand path modules modules_config module_name)
          module_name mod_cfg modules_config n after (is_absent (kind mod_cfg)) is_map at_name refl
          given went in
      rw held (rw given refl)
