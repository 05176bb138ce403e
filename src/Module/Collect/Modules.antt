-- ===== src/Module/Collect/Modules.antt =====
-- What is collected of all modules of a program.
use aimrt_comm.Base.{◌+◌, ◌≤◌, ◌≡◌, refl, sym, Option, none, some, List, [], ◌∷◌, ◌++◌}
use mathlib.Core.Path.{subst}
use aimrt_comm.Utils.Text.{Text}
use aimrt_comm.Utils.OrderedMap.{find, IsSorted}
use aimrt_comm.Module.Declare.{ExeConfig, ModuleCfg}
use aimrt_comm.Module.Collect.{ch_types, rpc_types, entry_of, Collected, add_modules}
use aimrt_comm.Module.Collect.Executors.{
  definitions, definition, defined_before, Checked, add_executors-Checked,
}
use aimrt_comm.Module.Collect.Parts.{
  all_of, Records, exes_of, exes-add_modules, add_modules-CollectsResources,
}

-- the maps of the processor are sorted
pub record AreSorted (c : Collected) : Type 0 where
  pub pubs_sorted : IsSorted c.pubs
  pub subs_sorted : IsSorted c.subs
  pub clis_sorted : IsSorted c.clis
  pub srvs_sorted : IsSorted c.srvs
  pub exes_sorted : IsSorted c.exes

pub record Collects (cfgs : List ModuleCfg) (c c' : Collected) : Type 0 where
  pub sorted : AreSorted c'
  pub modules : c'.modules ≡ c.modules ++ all_of (λ cfg. entry_of cfg ∷ []) cfgs
  pub pubs : Records ch_types (all_of (λ cfg. cfg.pubs) cfgs) c.pubs c'.pubs
  pub subs : Records ch_types (all_of (λ cfg. cfg.subs) cfgs) c.subs c'.subs
  pub clis : Records rpc_types (all_of (λ cfg. cfg.clis) cfgs) c.clis c'.clis
  pub srvs : Records rpc_types (all_of (λ cfg. cfg.srvs) cfgs) c.srvs c'.srvs
  pub once :
      (name : Text)
      → definitions name (all_of (λ cfg. cfg.exes) cfgs) + defined_before name c.exes ≤ 1
  pub exes :
      (name : Text)
      → find name c'.exes ≡ definition name (all_of (λ cfg. cfg.exes) cfgs) (find name c.exes)

-- how the calls of `AddModuleConfig` end: with the panic where an executor is defined twice, and else
-- with all that was declared
abbrev pub CollectsOrClashes : List ModuleCfg → Collected → Option Collected → Type 0
CollectsOrClashes cfgs c none =
    (name : Text) × (2
      ≤ definitions name (all_of (λ cfg. cfg.exes) cfgs) + defined_before name c.exes)
CollectsOrClashes cfgs c (some c') = Collects cfgs c c'

-- Collecting the modules of a program panics exactly where an executor is defined twice, by one
-- module or by two, or once and before. Else a method is recorded for a name exactly if it was before
-- or some module has a resource of the name that uses it; the maps are sorted by name, so that each
-- name has one entry; and each executor is as it was defined.
pub add_modules_lem :
    (cfgs : List ModuleCfg) (c : Collected)
    → AreSorted c
    → CollectsOrClashes cfgs c (add_modules cfgs c)
add_modules_lem cfgs c sorted = by_result (add_modules cfgs c) refl (
    subst (Checked exes c.exes) (sym (exes-add_modules cfgs c))
      (add_executors-Checked exes c.exes sorted.exes_sorted))
  where
    exes : List ExeConfig
    exes = all_of (λ cfg. cfg.exes) cfgs

    by_result :
        (r : Option Collected)
        → add_modules cfgs c ≡ r
        → Checked exes c.exes (exes_of (add_modules cfgs c))
        → CollectsOrClashes cfgs c r
    by_result none h checked = subst (λ r. Checked exes c.exes (exes_of r)) h checked
    by_result (some c') h checked =
        let (exes_sorted, once, found) = subst (λ r. Checked exes c.exes (exes_of r)) h checked in
        let parts =
          add_modules-CollectsResources cfgs c c' sorted.pubs_sorted sorted.subs_sorted
            sorted.clis_sorted sorted.srvs_sorted h in
        record {
          sorted = record {
            pubs_sorted = parts.pubs_sorted;
            subs_sorted = parts.subs_sorted;
            clis_sorted = parts.clis_sorted;
            srvs_sorted = parts.srvs_sorted;
            exes_sorted = exes_sorted;
          };
          modules = parts.modules;
          pubs = parts.pubs;
          subs = parts.subs;
          clis = parts.clis;
          srvs = parts.srvs;
          once = once;
          exes = found;
        }
