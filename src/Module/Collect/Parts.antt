-- ===== src/Module/Collect/Parts.antt =====
-- The resources and the executors of several modules, one after the other.
use aimrt_comm.Base.{
  ℕ, ◌≡◌, refl, sym, ap, ◌∙◌, Bool, true, Option, none, some, List, [], ◌∷◌, ◌++◌, if◌then◌else◌,
  any, arith,
}
use mathlib.Core.Path.{subst}
use mathlib.Core.List.{append_assoc, append-nil}
use aimrt_comm.Base.Fallible.{◌>>=◌, passed}
use aimrt_comm.Utils.Text.{Text}
use aimrt_comm.Utils.OrderedMap.{upsert, IsSorted}
use aimrt_comm.Module.Declare.{Resource, ExeConfig, ModuleCfg}
use aimrt_comm.Module.Collect.{
  ch_types, rpc_types, Types, entry_of, Collected, put_exe, record_resources, add_executors,
  add_module_config, add_modules,
}
use aimrt_comm.Module.Collect.Resources.{
  lists, declares, record_resources-IsSorted, lists-record_resources,
}

-- all that the modules declare
abbrev pub all_of {ℓ} : {A : Type ℓ} → (ModuleCfg → List A) → List ModuleCfg → List A
all_of part [] = []
all_of part (cfg ∷ cfgs) = part cfg ++ all_of part cfgs

-- what is recorded: what was, and the types that the resources use
abbrev pub Records : List ℕ → List Resource → Types → Types → Type 0
Records types srcs m m' =
    (name : Text) (t : ℕ)
    → lists name t m' ≡ (if any (declares types name t) srcs then true else lists name t m)

any-append :
    {A : Type 0} (p : A → Bool) (xs ys : List A)
    → any p (xs ++ ys) ≡ (if any p ys then true else any p xs)
unfolding any
any-append p [] ys = ground arith
any-append p (x ∷ xs) ys = ground (arith, any-append p xs ys)

Records-none : (types : List ℕ) (m : Types) → Records types [] m m
unfolding any
Records-none types m name t = refl

Records-trans :
    (types : List ℕ) (srcs srcs' : List Resource) (m mid m' : Types)
    → Records types srcs m mid
    → Records types srcs' mid m'
    → Records types (srcs ++ srcs') m m'
Records-trans types srcs srcs' m mid m' first second name t =
    second name t ∙ ground (arith, first name t, any-append (declares types name t) srcs srcs')

-- the executors of one list, and of another after it, are those of both
add_executors-append :
    (srcs srcs' : List ExeConfig) (exes : List (Text × ExeConfig))
    → add_executors (srcs ++ srcs') exes ≡ (add_executors srcs exes >>= add_executors srcs')
unfolding add_executors
add_executors-append [] srcs' exes = refl
add_executors-append (src ∷ srcs) srcs' exes = ground (
  arith,
  add_executors-append srcs srcs' exes,
  add_executors-append srcs srcs' (upsert src.name (put_exe src) exes),
)

-- after one module, with these executors
abbrev added : ModuleCfg → Collected → List (Text × ExeConfig) → Collected
added cfg c exes = record {
  modules = c.modules ++ entry_of cfg ∷ [];
  pubs = record_resources ch_types cfg.pubs c.pubs;
  subs = record_resources ch_types cfg.subs c.subs;
  clis = record_resources rpc_types cfg.clis c.clis;
  srvs = record_resources rpc_types cfg.srvs c.srvs;
  exes = exes;
}

abbrev pub exes_of : Option Collected → Option (List (Text × ExeConfig))
exes_of none = none
exes_of (some c) = some c.exes

-- the entries of all modules are those of one list of executors
pub exes-add_modules :
    (cfgs : List ModuleCfg) (c : Collected)
    → exes_of (add_modules cfgs c) ≡ add_executors (all_of (λ cfg. cfg.exes) cfgs) c.exes
unfolding add_modules add_module_config add_executors
exes-add_modules [] c = refl
exes-add_modules (cfg ∷ cfgs) c =
    by_exes (add_executors cfg.exes c.exes) (λ exes. exes-add_modules cfgs (added cfg c exes))
    ∙ sym (add_executors-append cfg.exes (all_of (λ m. m.exes) cfgs) c.exes)
  where
    by_exes :
        (r : Option (List (Text × ExeConfig)))
        → ((exes : List (Text × ExeConfig))
            → exes_of (add_modules cfgs (added cfg c exes))
              ≡ add_executors (all_of (λ m. m.exes) cfgs) exes)
        → exes_of ((r >>= λ exes. some (added cfg c exes)) >>= add_modules cfgs)
          ≡ (r >>= add_executors (all_of (λ m. m.exes) cfgs))
    by_exes none ih = refl
    by_exes (some exes) ih = ih exes

-- the parts that cannot clash
pub record CollectsResources (cfgs : List ModuleCfg) (c c' : Collected) : Type 0 where
  pub modules : c'.modules ≡ c.modules ++ all_of (λ cfg. entry_of cfg ∷ []) cfgs
  pub pubs : Records ch_types (all_of (λ cfg. cfg.pubs) cfgs) c.pubs c'.pubs
  pub subs : Records ch_types (all_of (λ cfg. cfg.subs) cfgs) c.subs c'.subs
  pub clis : Records rpc_types (all_of (λ cfg. cfg.clis) cfgs) c.clis c'.clis
  pub srvs : Records rpc_types (all_of (λ cfg. cfg.srvs) cfgs) c.srvs c'.srvs
  pub pubs_sorted : IsSorted c'.pubs
  pub subs_sorted : IsSorted c'.subs
  pub clis_sorted : IsSorted c'.clis
  pub srvs_sorted : IsSorted c'.srvs

some_same : {x y : Collected} → some x ≡ some y → x ≡ y
some_same h = cc

pub add_modules-CollectsResources :
    (cfgs : List ModuleCfg) (c c' : Collected)
    → IsSorted c.pubs
    → IsSorted c.subs
    → IsSorted c.clis
    → IsSorted c.srvs
    → add_modules cfgs c ≡ some c'
    → CollectsResources cfgs c c'
unfolding add_modules add_module_config
add_modules-CollectsResources [] c c' p s l v h =
    subst (CollectsResources [] c) (some_same h) (record {
      modules = sym (append-nil c.modules);
      pubs = Records-none ch_types c.pubs;
      subs = Records-none ch_types c.subs;
      clis = Records-none rpc_types c.clis;
      srvs = Records-none rpc_types c.srvs;
      pubs_sorted = p;
      subs_sorted = s;
      clis_sorted = l;
      srvs_sorted = v;
    })
add_modules-CollectsResources (cfg ∷ cfgs) c c' p s l v h =
    let (mid, one, two) = passed (add_module_config cfg c) (add_modules cfgs) h in
    let (exes, put, made) = passed (add_executors cfg.exes c.exes) _ one in
    let next = added cfg c exes in
    let rest =
      add_modules-CollectsResources cfgs next c'
        (record_resources-IsSorted ch_types cfg.pubs c.pubs p)
        (record_resources-IsSorted ch_types cfg.subs c.subs s)
        (record_resources-IsSorted rpc_types cfg.clis c.clis l)
        (record_resources-IsSorted rpc_types cfg.srvs c.srvs v)
        (ap (add_modules cfgs) (some_same made) ∙ two) in
    record {
      modules =
          rest.modules
          ∙ append_assoc c.modules (entry_of cfg ∷ []) (all_of (λ m. entry_of m ∷ []) cfgs);
      pubs =
          Records-trans ch_types cfg.pubs (all_of (λ m. m.pubs) cfgs) c.pubs next.pubs c'.pubs
            (λ name t. lists-record_resources name t ch_types cfg.pubs c.pubs p) rest.pubs;
      subs =
          Records-trans ch_types cfg.subs (all_of (λ m. m.subs) cfgs) c.subs next.subs c'.subs
            (λ name t. lists-record_resources name t ch_types cfg.subs c.subs s) rest.subs;
      clis =
          Records-trans rpc_types cfg.clis (all_of (λ m. m.clis) cfgs) c.clis next.clis c'.clis
            (λ name t. lists-record_resources name t rpc_types cfg.clis c.clis l) rest.clis;
      srvs =
          Records-trans rpc_types cfg.srvs (all_of (λ m. m.srvs) cfgs) c.srvs next.srvs c'.srvs
            (λ name t. lists-record_resources name t rpc_types cfg.srvs c.srvs v) rest.srvs;
      pubs_sorted = rest.pubs_sorted;
      subs_sorted = rest.subs_sorted;
      clis_sorted = rest.clis_sorted;
      srvs_sorted = rest.srvs_sorted;
    }
