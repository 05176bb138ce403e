-- ===== src/Module/Examples.antt =====
-- Two modules that are collected, and two that clash.
use aimrt_comm.Base.{ℕ, ◌≡◌, refl, true, Option, none, some, [], ◌∷◌, if◌then◌else◌}
use aimrt_comm.Utils.Text.{Text, codes, text_eq}
use aimrt_comm.Utils.TextOrder.{text_lt}
use aimrt_comm.Utils.OrderedMap.{find, upsert}
use aimrt_comm.Module.Declare.{
  ModuleCfg, def, declare_thread_safe, def_pub, def_sub, part_methods, one_thread,
}
use aimrt_comm.Module.Collect.{
  Collected, add_modules, add_module_config, add_executors, record_resources, executor_entries,
}
use aimrt_comm.Module.Collect.Modules.{AreSorted, CollectsOrClashes, add_modules_lem}

abbrev empty_module : Text → ModuleCfg
empty_module name = record {
  name = name;
  enable = true;
  log_lvl = none;
  pubs = [];
  subs = [];
  clis = [];
  srvs = [];
  exes = [];
  initializers = [];
}

-- the default backends "ros2" and "local"
abbrev method_of : Text → Option ℕ
method_of name =
    if text_eq name (codes "ros2")
    then some 1
    else if text_eq name (codes "local")
    then some 32
    else none

default_methods : part_methods method_of (codes "ros2" ∷ codes "local" ∷ []) 0 ≡ some 33
unfolding part_methods text_eq
default_methods = refl

camera : ModuleCfg
unfolding def def_pub
camera = def_pub 33 (codes "/image") (def none (codes "~/loop") (empty_module (codes "Camera")))

viewer : ModuleCfg
unfolding declare_thread_safe def_sub def_pub
viewer = def_pub 4 (codes "/image") (
    def_pub 1 (codes "/alive") (
      def_sub 33 (codes "/image")
        (declare_thread_safe (codes "Camera/loop") (empty_module (codes "Viewer")))))

nothing_collected : Collected
nothing_collected = record { modules = []; pubs = []; subs = []; clis = []; srvs = []; exes = [] }

nothing_collected-AreSorted : AreSorted nothing_collected
unfolding nothing_collected
nothing_collected-AreSorted = record {
  pubs_sorted = tt;
  subs_sorted = tt;
  clis_sorted = tt;
  srvs_sorted = tt;
  exes_sorted = tt;
}

-- the names are sorted, the methods of both modules together, and the executor is defined once
both_collected : (c : Collected) × (add_modules (camera ∷ viewer ∷ []) nothing_collected ≡ some c)
unfolding camera viewer nothing_collected add_modules add_module_config add_executors
    record_resources find text_lt text_eq upsert
both_collected = (_, refl)

pubs_collected :
    both_collected.0.pubs ≡ (codes "/alive", 1 ∷ []) ∷ (codes "/image", 1 ∷ 4 ∷ 32 ∷ []) ∷ []
unfolding both_collected camera viewer nothing_collected add_modules add_module_config add_executors
    record_resources find text_lt text_eq upsert
pubs_collected = refl

executors_entered :
    executor_entries (codes "asio_thread") both_collected.0.exes
    ≡ some ((codes "Camera/loop", one_thread) ∷ [])
unfolding executor_entries both_collected camera viewer nothing_collected add_modules
    add_module_config add_executors record_resources find text_lt text_eq upsert
executors_entered = refl

add_modules_lem_example :
    CollectsOrClashes
      (camera ∷ viewer ∷ [])
      nothing_collected
      (add_modules (camera ∷ viewer ∷ []) nothing_collected)
add_modules_lem_example =
    add_modules_lem (camera ∷ viewer ∷ []) nothing_collected nothing_collected-AreSorted

-- two modules that define one executor
twice_defined : add_modules (camera ∷ camera ∷ []) nothing_collected ≡ none
unfolding camera nothing_collected add_modules add_module_config add_executors record_resources find
    text_lt text_eq upsert
twice_defined = refl
