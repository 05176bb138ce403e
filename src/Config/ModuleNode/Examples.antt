-- ===== src/Config/ModuleNode/Examples.antt =====
-- Runs of the choice of a module's configuration (src/module/cfg.cpp).
use aimrt_comm.Base.{String, ◌≡◌, refl, some, List, [], ◌∷◌}
use aimrt_comm.Base.Outcome.{Outcome, ok, fail, bad_conversion}
use aimrt_comm.Config.Yaml.Tree.{Tree, leaf, seq, obj, nil, cons, end, entry, tree_yaml}
use aimrt_comm.Config.Items.{subscript, as_string}
use aimrt_comm.Config.ModuleNode.{
  OwnFile, own_path, path_in_file, path_of_module, from_object, from_root_file,
  get_module_config_yaml, get_mutable_module_config_yaml,
}
use aimrt_comm.Config.ModuleNode.Mutable.{get_mutable_module_config_yaml-again}

abbrev rate : Tree
rate = obj "" (entry "rate" (leaf "" "30") end)

abbrev cameras : List OwnFile
cameras = record { name = "Camera"; cfg_file_path = some "camera.yaml" } ∷ []

abbrev read_rate : String → Outcome Tree
read_rate path = ok rate

-- later no file can be read
abbrev cannot_read : String → Outcome Tree
cannot_read path = fail bad_conversion

abbrev with_camera : Tree
with_camera = obj "" (entry "Camera" rate end)

get_mutable_module_config_yaml-again_example :
    get_mutable_module_config_yaml tree_yaml cannot_read ok "late.yaml" [] with_camera "Camera"
    ≡ ok (rate, with_camera)
unfolding get_mutable_module_config_yaml get_module_config_yaml from_root_file from_object own_path
    subscript
get_mutable_module_config_yaml-again_example =
    get_mutable_module_config_yaml-again tree_yaml read_rate cannot_read ok ok "" "late.yaml"
      cameras [] (obj "" end) rate with_camera "Camera" refl refl refl

-- a root file that names a file of the module's own
abbrev root : Tree
root = obj "" (
    entry "aimrt"
      (obj "" (
        entry "module"
          (obj "" (
            entry "modules"
              (seq "" (
                cons
                  (obj "" (
                    entry "name" (leaf "" "Camera")
                      (entry "cfg_file_path" (leaf "" "camera.yaml") end)))
                  nil))
              end))
          end))
      (entry "Camera" (leaf "" "here") end))

own_file_first : path_of_module tree_yaml "Camera" root ≡ ok (some "camera.yaml")
unfolding path_of_module path_in_file subscript as_string
own_file_first = refl
