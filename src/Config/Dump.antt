-- ===== src/Config/Dump.antt =====
-- How `DumpFile` makes the configuration of the framework (src/module/cfg_processor.cpp): the
-- configuration of the modules, the file of the user, the defaults and the patches, in this order.
-- Writing the result to a file is left out.
pub mod Chain
pub mod BySection
pub mod Whole
mod Examples
use aimrt_comm.Base.{String, List, [], ◌∷◌, if◌then◌else◌, str_eq}
use aimrt_comm.Base.Outcome.{Outcome, ok, ◌>>=◌}
use aimrt_comm.Config.Yaml.{Yaml}
use aimrt_comm.Config.Items.{subscript}
use aimrt_comm.Config.Sections.{at_key}
use aimrt_comm.Config.Sections.Merging.{merge_aimrt_node, merge_custom_nodes}
use aimrt_comm.Config.Sections.Patching.{patch_aimrt_node}

module _ (y : Yaml) where
  open y use {Node, absent, field, set_field, entries}

  -- what a run finds: the node that `MakeYamlFromCfg` gives, the path of the user's file, the paths of
  -- the patches that the system asks for before and after it and that the command line gives, the
  -- files, the injection of the defaults into the `aimrt` node, and what the user's `aimrte` node has
  -- become after the patches: a node that a patch adopts is shared, so later patches change it there
  pub record Run : Type 0 where
    pub made : Node
    pub cfg_file_path : String
    pub before : List String
    pub user : List String
    pub after : List String
    pub read_yaml : String → Outcome Node
    pub inject : Node → Outcome Node
    pub aimrte_after : Node

  -- the entries of the user's file when the patches have been applied
  unfoldable pub entries_after : Node → List (String × Node) → List (String × Node)
  entries_after aimrte [] = []
  entries_after aimrte ((name, n) ∷ es) =
      (name, if str_eq name "aimrte" then aimrte else n) ∷ entries_after aimrte es

  -- `PatchAimRTNode(yaml["aimrt"], patch["aimrte"])`
  unfoldable pub patch_root : Node → Node → Outcome Node
  patch_root yaml patch = do
    res ← subscript y yaml "aimrt"
    ext ← subscript y patch "aimrte"
    patched ← patch_aimrt_node y res ext
    ok (set_field yaml "aimrt" patched)

  -- a loop over the paths of patches
  unfoldable pub patch_files : (String → Outcome Node) → List String → Node → Outcome Node
  patch_files read_yaml [] yaml = ok yaml
  patch_files read_yaml (path ∷ paths) yaml =
      read_yaml path >>= λ patch. patch_root yaml patch >>= patch_files read_yaml paths

  -- `InjectDefaultCfgToAimRTNode(yaml["aimrt"])`
  unfoldable pub inject_root : (Node → Outcome Node) → Node → Outcome Node
  inject_root inject yaml = do
    res ← subscript y yaml "aimrt"
    injected ← inject res
    ok (set_field yaml "aimrt" injected)

  unfoldable pub read_ext : Run → Outcome Node
  read_ext run = if str_eq run.cfg_file_path "" then ok absent else run.read_yaml run.cfg_file_path

  unfoldable pub dump_file : Run → Outcome Node
  dump_file run = do
    ext ← read_ext run
    merged ← at_key y (merge_aimrt_node y) "aimrt" run.made ext
    injected ← inject_root run.inject merged
    prepared ← patch_files run.read_yaml run.before injected
    patched ← patch_root prepared ext
    adapted ← patch_files run.read_yaml run.user patched
    finished ← patch_files run.read_yaml run.after adapted
    ok (merge_custom_nodes y (entries_after run.aimrte_after (entries ext)) finished)
