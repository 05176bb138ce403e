-- ===== src/Config/ModuleNode.antt =====
-- The configuration of one module: `GetModuleConfigYamlFromRootFile`, `Cfg::GetModuleConfigYaml`
-- and `Cfg::GetMutableModuleConfigYaml` (src/module/cfg.cpp).
pub mod Mutable
mod Examples
use aimrt_comm.Base.{
  String, Bool, true, false, ◌&&◌, Option, none, some, List, [], ◌∷◌, if◌then◌else◌, str_eq,
}
use aimrt_comm.Base.Outcome.{Outcome, ok, bad_conversion, of_option, ◌>>=◌}
use aimrt_comm.Config.Yaml.{Yaml, is_sequence, is_absent}
use aimrt_comm.Config.Items.{subscript, as_string}
use aimrt_comm.Config.Deployment.{is_there}

-- `ModuleConfig`, the fields that the search reads
pub record OwnFile : Type 0 where
  pub name : String
  pub cfg_file_path : Option String

-- the file of the first module of this name that has one
unfoldable pub own_path : String → List OwnFile → Option String
own_path module_name [] = none
own_path module_name (i ∷ is) =
    let rest = own_path module_name is in
    elim i.cfg_file_path [
      | none ↦ rest
      | some path ↦ if str_eq i.name module_name then some path else rest
    ]

module _ (y : Yaml) where
  open y use {Node, kind, absent, items}

  -- the path of the first element of this name that has one
  unfoldable pub path_in_file : String → List Node → Outcome (Option String)
  path_in_file module_name [] = ok none
  path_in_file module_name (n_i ∷ ns) =
      let rest = path_in_file module_name ns in
      subscript y n_i "name" >>= as_string y >>= λ name.
      if str_eq name module_name
      then (subscript y n_i "cfg_file_path" >>= λ n_path.
          if is_there y n_path then (as_string y n_path >>= λ path. ok (some path)) else rest)
      else rest

  unfoldable pub path_of_module : String → Node → Outcome (Option String)
  path_of_module module_name cfg_file = do
    aimrt ← subscript y cfg_file "aimrt"
    of_module ← subscript y aimrt "module"
    modules ← subscript y of_module "modules"
    if is_sequence (kind modules) then path_in_file module_name (items modules) else ok none

  module _ (load_file : String → Outcome Node) where
    -- what is read where the file names no path of its own for the module
    unfoldable pub read_or_field : String → Node → Option String → Outcome Node
    read_or_field module_name cfg_file (some path) = load_file path
    read_or_field module_name cfg_file none =
        subscript y cfg_file module_name >>= λ n. if is_there y n then ok n else ok absent

    unfoldable pub get_module_config_yaml_from_root_file : String → String → Outcome Node
    get_module_config_yaml_from_root_file root_file_path module_name =
        load_file root_file_path >>= λ cfg_file.
        path_of_module module_name cfg_file >>= read_or_field module_name cfg_file

    -- the two sources of the configuration object itself
    unfoldable pub from_object : String → Node → Option String → Outcome Node
    from_object module_name modules_config (some path) = load_file path
    from_object module_name modules_config none = subscript y modules_config module_name >>= λ n.
        if is_absent (kind n) then ok absent else ok n

    unfoldable pub from_root_file : String → String → Outcome Node
    from_root_file cfg_file_path module_name =
        if str_eq cfg_file_path ""
        then ok absent
        else get_module_config_yaml_from_root_file cfg_file_path module_name

    -- the null node where no source has the module
    unfoldable pub get_module_config_yaml :
        (Node → Outcome Node) → String → List OwnFile → Node → String → Outcome Node
    get_module_config_yaml expand cfg_file_path modules modules_config module_name = do
      ret ← from_root_file cfg_file_path module_name
      module_yaml_cfg ←
          (if is_absent (kind ret)
            then from_object module_name modules_config (own_path module_name modules)
            else ok ret)
      if is_absent (kind module_yaml_cfg) then ok absent else expand module_yaml_cfg

    -- the node of the module, and the configurations of all modules after the call
    unfoldable pub get_mutable_module_config_yaml :
        (Node → Outcome Node) → String → List OwnFile → Node → String → Outcome (Node × Node)
    get_mutable_module_config_yaml expand cfg_file_path modules modules_config module_name =
        subscript y modules_config module_name >>= λ mod_cfg.
        if is_absent (kind mod_cfg)
        then (get_module_config_yaml expand cfg_file_path modules modules_config module_name
            >>= λ n.
                if is_absent (kind n)
                then ok (mod_cfg, modules_config)
                else ok (n, y.set_field modules_config module_name n))
        else ok (mod_cfg, modules_config)
