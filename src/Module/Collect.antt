-- ===== src/Module/Collect.antt =====
-- `AddModuleConfig`, which collects what the modules declare, and the part of `MakeYamlFromCfg` that
-- hands it to the framework's configuration (src/module/cfg_processor.cpp).
pub mod Resources
pub mod Executors
pub mod Parts
pub mod Modules
use Prim.Native.Nat.{bit_and}
use aimrt_comm.Base.{
  ℕ, ◌*◌, Bool, true, false, not, ◌==◌, ltb, Option, none, some, List, [], ◌∷◌, ◌++◌, map,
  if◌then◌else◌,
}
use aimrt_comm.Base.Fallible.{◌>>=◌}
use aimrt_comm.Utils.Text.{Text, codes, text_eq}
use aimrt_comm.Utils.OrderedMap.{find, upsert}
use aimrt_comm.Module.Declare.{LogLevel, Resource, ExeOption, ExeConfig, ModuleCfg, one_thread}

-- the enumerators of `cfg::Ch` and `cfg::Rpc`: `Default` and one bit for each method
abbrev pub ch_types : List ℕ
ch_types = 0 ∷ 1 ∷ 2 ∷ 4 ∷ 8 ∷ 16 ∷ 32 ∷ 64 ∷ 128 ∷ 256 ∷ []

abbrev pub rpc_types : List ℕ
rpc_types = 0 ∷ 1 ∷ 2 ∷ 4 ∷ 8 ∷ 16 ∷ 32 ∷ 64 ∷ []

-- `std::set::insert`
unfoldable pub insert_type : ℕ → List ℕ → List ℕ
insert_type type [] = type ∷ []
insert_type type (t ∷ ts) =
    let rest = insert_type type ts in
    if t == type then t ∷ ts else if ltb type t then type ∷ t ∷ ts else t ∷ rest

-- `static_cast<std::uint64_t>(type) & static_cast<std::uint64_t>(src_i.methods)`
unfoldable pub uses : ℕ → ℕ → Bool
uses type methods = not (bit_and type methods == 0)

abbrev pub with_type : ℕ → Option (List ℕ) → List ℕ
with_type type none = insert_type type []
with_type type (some types) = insert_type type types

abbrev pub Types : Type 0
Types = List (Text × List ℕ)

-- the loop over the types, and the loop over the resources of a module
unfoldable pub record_types : Resource → List ℕ → Types → Types
unfolding uses upsert insert_type
record_types src [] dst = dst
record_types src (type ∷ types) dst =
    record_types src types
      (if uses type src.methods then upsert src.name (with_type type) dst else dst)

unfoldable pub record_resources : List ℕ → List Resource → Types → Types
unfolding record_types
record_resources types [] dst = dst
record_resources types (src ∷ srcs) dst = record_resources types srcs (record_types src types dst)

-- one executor of a module, and the loop; `none` is the panic of a second definition
abbrev pub put_exe : ExeConfig → Option ExeConfig → ExeConfig
put_exe src dst = src

abbrev pub is_defined : Option ExeConfig → Bool
is_defined none = false
is_defined (some dst) = elim dst.option [ none ↦ false | some option ↦ true ]

unfoldable pub add_executors :
    List ExeConfig → List (Text × ExeConfig) → Option (List (Text × ExeConfig))
add_executors [] exes = some exes
add_executors (src ∷ srcs) exes = elim src.option [
  | none ↦ add_executors srcs exes
  | some option ↦ elim (is_defined (find src.name exes)) [
    | true ↦ none
    | false ↦ add_executors srcs (upsert src.name (put_exe src) exes)
  ]
]

-- the entry of a module in the configuration
pub record ModuleEntry : Type 0 where
  pub name : Text
  pub enable : Bool
  pub log_lvl : Option LogLevel

pub record Collected : Type 0 where
  pub modules : List ModuleEntry
  pub pubs : Types
  pub subs : Types
  pub clis : Types
  pub srvs : Types
  pub exes : List (Text × ExeConfig)

abbrev pub entry_of : ModuleCfg → ModuleEntry
entry_of cfg = record { name = cfg.name; enable = cfg.enable; log_lvl = cfg.log_lvl }

-- `AddModuleConfig`
unfoldable pub add_module_config : ModuleCfg → Collected → Option Collected
add_module_config cfg c = add_executors cfg.exes c.exes >>= λ exes. some (record {
  modules = c.modules ++ entry_of cfg ∷ [];
  pubs = record_resources ch_types cfg.pubs c.pubs;
  subs = record_resources ch_types cfg.subs c.subs;
  clis = record_resources rpc_types cfg.clis c.clis;
  srvs = record_resources rpc_types cfg.srvs c.srvs;
  exes = exes;
})

-- the calls for the modules of a program, one after the other
unfoldable pub add_modules : List ModuleCfg → Collected → Option Collected
add_modules [] c = some c
add_modules (cfg ∷ cfgs) c = add_module_config cfg c >>= add_modules cfgs

-- `collect_module_resource_cfg`: an option for each name, with its backends, after those that are there
abbrev pub collect_resources : Types → Types → Types
collect_resources src dst = dst ++ src

abbrev pub executor_option : Option ExeOption → ExeOption
executor_option none = one_thread
executor_option (some option) = option

-- the executors of the configuration: of the default type, which can be "asio_thread" only; `none` is
-- the panic of another default
unfoldable pub executor_entries : Text → List (Text × ExeConfig) → Option (List (Text × ExeOption))
unfolding text_eq
executor_entries default_type [] = some []
executor_entries default_type ((key, exe) ∷ exes) =
    if not (text_eq default_type (codes "asio_thread"))
    then none
    else (executor_entries default_type exes >>= λ entries.
        some ((exe.name, executor_option exe.option) ∷ entries))
