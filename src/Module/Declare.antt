-- ===== src/Module/Declare.antt =====
-- What a module declares of itself: executors, channels and RPC (src/module/module_cfg.cpp and
-- src/module/cfg.h).
use Prim.Native.Nat.{bit_or}
use aimrt_comm.Base.{
  ℕ, Bool, true, false, not, ◌==◌, Option, none, some, List, [], ◌∷◌, ◌++◌, if◌then◌else◌,
}
use aimrt_comm.Base.Fallible.{◌>>=◌}
use aimrt_comm.Utils.Text.{Text, codes, strip_prefix}

pub data LogLevel : Type 0 where
  trace debug info warn error fatal off : LogLevel

-- `ChConfig` and `RpcConfig`: the methods are a set of bits
pub record Resource : Type 0 where
  pub methods : ℕ
  pub name : Text

-- `ExeConfig::Option`
pub record ExeOption : Type 0 where
  pub thread_num : ℕ
  pub thread_bind_cpu : List ℕ
  pub thread_sched_policy : Text

pub record ExeConfig : Type 0 where
  pub name : Text
  pub option : Option ExeOption

-- the initializer of an executor: its full name, and whether it has to be thread safe
pub record Initializer : Type 0 where
  pub name : Text
  pub check_thread_safe : Bool

pub record ModuleCfg : Type 0 where
  pub name : Text
  pub enable : Bool
  pub log_lvl : Option LogLevel
  pub pubs : List Resource
  pub subs : List Resource
  pub clis : List Resource
  pub srvs : List Resource
  pub exes : List ExeConfig
  pub initializers : List Initializer

unfoldable pub enable : Bool → ModuleCfg → ModuleCfg
enable value cfg = record cfg { enable = value }

unfoldable pub disable : Bool → ModuleCfg → ModuleCfg
unfolding enable
disable value cfg = enable (not value) cfg

unfoldable pub level : LogLevel → ModuleCfg → ModuleCfg
level value cfg = record cfg { log_lvl = some value }

unfoldable pub use_default_level : ModuleCfg → ModuleCfg
use_default_level cfg = record cfg { log_lvl = none }

-- "~/" stands for the module: the slash stays
unfoldable pub replace_with_full_name : ModuleCfg → Text → Text
unfolding strip_prefix
replace_with_full_name cfg name = elim (strip_prefix (codes "~/") name) [
  | none ↦ name
  | some rest ↦ cfg.name ++ b'/' ∷ rest
]

unfoldable pub add_initializer : Text → Bool → ModuleCfg → ModuleCfg
add_initializer name check_thread_safe cfg = record cfg {
  initializers =
      cfg.initializers ++ record { name = name; check_thread_safe = check_thread_safe } ∷ [];
}

unfoldable pub do_declare : Text → Bool → ModuleCfg → ModuleCfg
unfolding replace_with_full_name add_initializer
do_declare name check_thread_safe cfg =
    let full = replace_with_full_name cfg name in
    add_initializer full check_thread_safe
      (record cfg { exes = cfg.exes ++ record { name = full; option = none } ∷ [] })

unfoldable pub do_def : Text → Bool → ExeOption → ModuleCfg → ModuleCfg
unfolding replace_with_full_name add_initializer
do_def name check_thread_safe option cfg =
    let full = replace_with_full_name cfg name in
    add_initializer full check_thread_safe
      (record cfg { exes = cfg.exes ++ record { name = full; option = some option } ∷ [] })

unfoldable pub declare : Text → ModuleCfg → ModuleCfg
unfolding do_declare
declare name cfg = do_declare name false cfg

unfoldable pub declare_thread_safe : Text → ModuleCfg → ModuleCfg
unfolding do_declare
declare_thread_safe name cfg = do_declare name true cfg

unfoldable pub def_with : Text → ExeOption → ModuleCfg → ModuleCfg
unfolding do_def
def_with name option cfg = do_def name false option cfg

-- one thread, bound to no processor
abbrev pub one_thread : ExeOption
one_thread = record { thread_num = 1; thread_bind_cpu = []; thread_sched_policy = [] }

-- `Def` and `DefThreadSafe` without options, of a resource that may have some
unfoldable pub def : Option ExeOption → Text → ModuleCfg → ModuleCfg
unfolding do_def def_with
def (some option) name cfg = do_def name false option cfg
def none name cfg = def_with name one_thread cfg

unfoldable pub def_thread_safe_with : Text → List ℕ → Text → ModuleCfg → ModuleCfg
unfolding do_def
def_thread_safe_with name thread_bind_cpu thread_sched_policy cfg =
    do_def name true
      (record {
        thread_num = 1;
        thread_bind_cpu = thread_bind_cpu;
        thread_sched_policy = thread_sched_policy;
      })
      cfg

unfoldable pub def_thread_safe : Option ExeOption → Text → ModuleCfg → ModuleCfg
unfolding do_def def_thread_safe_with
def_thread_safe (some option) name cfg = do_def name true option cfg
def_thread_safe none name cfg = def_thread_safe_with name [] [] cfg

-- the methods that names of the system's default backends add; `none` is the exception for a name
-- that is no method
unfoldable pub add_methods : (Text → Option ℕ) → List Text → ℕ → Option ℕ
add_methods string_to_enum [] methods = some methods
add_methods string_to_enum (i ∷ is) methods =
    string_to_enum i >>= λ method. add_methods string_to_enum is (bit_or methods method)

-- `ChPart::ChPart` and `RpcPart::RpcPart`; `Default` is zero
unfoldable pub part_methods : (Text → Option ℕ) → List Text → ℕ → Option ℕ
unfolding add_methods
part_methods string_to_enum backends methods =
    if methods == 0 then add_methods string_to_enum backends methods else some methods

abbrev resource : ℕ → Text → List Resource
resource methods name = record { methods = methods; name = name } ∷ []

unfoldable pub def_pub : ℕ → Text → ModuleCfg → ModuleCfg
def_pub methods name cfg = record cfg { pubs = cfg.pubs ++ resource methods name }

unfoldable pub def_sub : ℕ → Text → ModuleCfg → ModuleCfg
def_sub methods name cfg = record cfg { subs = cfg.subs ++ resource methods name }

unfoldable pub def_cli : ℕ → Text → ModuleCfg → ModuleCfg
def_cli methods name cfg = record cfg { clis = cfg.clis ++ resource methods name }

unfoldable pub def_srv : ℕ → Text → ModuleCfg → ModuleCfg
def_srv methods name cfg = record cfg { srvs = cfg.srvs ++ resource methods name }
