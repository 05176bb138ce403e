-- ===== src/Module/Collect/Executors.antt =====
-- When the executors of the modules clash, and what is recorded of them.
use aimrt_comm.Base.{
  ℕ, ◌+◌, ◌≤◌, ◌≡◌, refl, sym, ap, ◌∙◌, inl, inr, Bool, true, false, Option, none, some, List, [],
  ◌∷◌, if◌then◌else◌, Bool-cases, arith,
}
use aimrt_comm.Utils.Text.{Text, text_eq}
use aimrt_comm.Utils.TextOrder.{text_eq_refl, text_eq→eq}
use aimrt_comm.Utils.OrderedMap.{find, upsert, IsSorted, upsert-IsSorted, find-upsert}
use aimrt_comm.Module.Declare.{ExeOption, ExeConfig}
use aimrt_comm.Module.Collect.{put_exe, is_defined, add_executors}

-- how often a name is defined, with options, by a list of executors
unfoldable pub definitions : Text → List ExeConfig → ℕ
definitions name [] = 0
definitions name (src ∷ srcs) =
    let more = definitions name srcs in
    elim src.option [ none ↦ more | some option ↦ if text_eq src.name name then 1 + more else more ]

-- and whether it was before
abbrev pub defined_before : Text → List (Text × ExeConfig) → ℕ
defined_before name exes = if is_defined (find name exes) then 1 else 0

-- the last definition of a name
unfoldable pub definition : Text → List ExeConfig → Option ExeConfig → Option ExeConfig
definition name [] before = before
definition name (src ∷ srcs) before = elim src.option [
  | none ↦ definition name srcs before
  | some option ↦ definition name srcs (if text_eq src.name name then some src else before)
]

-- what the loop of `AddModuleConfig` over the executors ends with: the panic, for a name that is
-- defined twice; or the entries, where no name is
abbrev pub Checked :
    List ExeConfig → List (Text × ExeConfig) → Option (List (Text × ExeConfig)) → Type 0
Checked srcs exes none = (name : Text) × (2 ≤ definitions name srcs + defined_before name exes)
Checked srcs exes (some exes') =
    IsSorted exes'
    × ((name : Text) → definitions name srcs + defined_before name exes ≤ 1)
    × ((name : Text) → find name exes' ≡ definition name srcs (find name exes))

before-le : (name : Text) (exes : List (Text × ExeConfig)) → 0 + defined_before name exes ≤ 1
before-le name exes = ground arith

definitions-declared :
    (name : Text) (src : ExeConfig) (srcs : List ExeConfig)
    → src.option ≡ none
    → definitions name (src ∷ srcs) ≡ definitions name srcs
unfolding definitions
definitions-declared name src srcs e = rw e refl

definitions-defined :
    (name : Text) (src : ExeConfig) (srcs : List ExeConfig) {option : ExeOption}
    → src.option ≡ some option
    → definitions name (src ∷ srcs)
      ≡ (if text_eq src.name name then 1 + definitions name srcs else definitions name srcs)
unfolding definitions
definitions-defined name src srcs e = rw e refl

definition-declared :
    (name : Text) (src : ExeConfig) (srcs : List ExeConfig) (before : Option ExeConfig)
    → src.option ≡ none
    → definition name (src ∷ srcs) before ≡ definition name srcs before
unfolding definition
definition-declared name src srcs before e = rw e refl

definition-defined :
    (name : Text) (src : ExeConfig) (srcs : List ExeConfig) (before : Option ExeConfig)
    {option : ExeOption}
    → src.option ≡ some option
    → definition name (src ∷ srcs) before
      ≡ definition name srcs (if text_eq src.name name then some src else before)
unfolding definition
definition-defined name src srcs before e =
    ap
      (λ (o : Option ExeOption). elim o as (λ x. Option ExeConfig) [
        | none ↦ definition name srcs before
        | some option ↦ definition name srcs (if text_eq src.name name then some src else before)
      ])
      e

-- an executor that is put into the map counts there
moved :
    (name : Text) (src : ExeConfig) (srcs : List ExeConfig) (exes : List (Text × ExeConfig))
    {option : ExeOption}
    → IsSorted exes
    → src.option ≡ some option
    → is_defined (find src.name exes) ≡ false
    → definitions name (src ∷ srcs) + defined_before name exes
      ≡ definitions name srcs + defined_before name (upsert src.name (put_exe src) exes)
moved name src srcs exes s e fresh =
    let found = find-upsert name src.name (put_exe src) exes s in
    let first = definitions-defined name src srcs e in
    elim (Bool-cases (text_eq src.name name)) [
      | inl same ↦
          let now : is_defined (find name (upsert src.name (put_exe src) exes)) ≡ true =
            (let found' = rw same at found in
              ap is_defined found'
              ∙ ap
                  (λ (o : Option ExeOption). elim o as (λ x. Bool) [
                    | none ↦ false
                    | some option ↦ true
                  ])
                  e) in
          let old : is_defined (find name exes) ≡ false =
            ap (λ n. is_defined (find n exes)) (sym (text_eq→eq src.name name same)) ∙ fresh in
          let first' = rw same at first in rw now (rw old (omega (arith, first')))
      | inr other ↦
          let now : is_defined (find name (upsert src.name (put_exe src) exes))
              ≡ is_defined (find name exes) =
            (let found' = rw other at found in ap is_defined found') in
          let first' = rw other at first in rw now (ap (λ n. n + defined_before name exes) first')
    ]

Checked-declared :
    (src : ExeConfig) (srcs : List ExeConfig) (exes : List (Text × ExeConfig))
    (r : Option (List (Text × ExeConfig)))
    → src.option ≡ none
    → Checked srcs exes r
    → Checked (src ∷ srcs) exes r
Checked-declared src srcs exes none e (name, twice) =
    (name, omega (arith, definitions-declared name src srcs e))
Checked-declared src srcs exes (some exes') e (s, once, found) = (
  s,
  (λ name. omega (arith, definitions-declared name src srcs e, once name)),
  (λ name. found name ∙ sym (definition-declared name src srcs (find name exes) e)),
)

Checked-put :
    (src : ExeConfig) (srcs : List ExeConfig) (exes : List (Text × ExeConfig))
    (r : Option (List (Text × ExeConfig))) {option : ExeOption}
    → IsSorted exes
    → src.option ≡ some option
    → is_defined (find src.name exes) ≡ false
    → Checked srcs (upsert src.name (put_exe src) exes) r
    → Checked (src ∷ srcs) exes r
Checked-put src srcs exes none s e fresh (name, twice) =
    (name, omega (arith, moved name src srcs exes s e fresh))
Checked-put src srcs exes (some exes') s e fresh (s', once, found) = (
  s',
  (λ name. omega (arith, moved name src srcs exes s e fresh, once name)),
  (λ name.
      found name
      ∙ ap (definition name srcs) (find-upsert name src.name (put_exe src) exes s)
      ∙ sym (definition-defined name src srcs (find name exes) e)),
)

Checked-twice :
    (src : ExeConfig) (srcs : List ExeConfig) (exes : List (Text × ExeConfig)) {option : ExeOption}
    → src.option ≡ some option
    → is_defined (find src.name exes) ≡ true
    → 2 ≤ definitions src.name (src ∷ srcs) + defined_before src.name exes
Checked-twice src srcs exes e before =
    let first = rw (text_eq_refl src.name) at (definitions-defined src.name src srcs e) in
    rw before (omega (arith, first))

-- Adding the executors of a module: it panics only where some name is defined twice, by the module
-- or before it; else no name is, the map is sorted, and it has for each name its definition by the
-- module, if there is one, and else what it had. A mere declaration adds nothing.
pub add_executors-Checked :
    (srcs : List ExeConfig) (exes : List (Text × ExeConfig))
    → IsSorted exes
    → Checked srcs exes (add_executors srcs exes)
unfolding add_executors definitions definition
add_executors-Checked [] exes s = (s, (λ name. before-le name exes), (λ name. refl))
add_executors-Checked (src ∷ srcs) exes s =
    by_option src.option refl (add_executors-Checked srcs exes s) (λ fresh.
      add_executors-Checked srcs (upsert src.name (put_exe src) exes)
        (upsert-IsSorted src.name (put_exe src) exes s))
  where
    by_before :
        (b : Bool) {option : ExeOption}
        → src.option ≡ some option
        → is_defined (find src.name exes) ≡ b
        → (is_defined (find src.name exes) ≡ false
            → Checked srcs
                (upsert src.name (put_exe src) exes)
                (add_executors srcs (upsert src.name (put_exe src) exes)))
        → Checked (src ∷ srcs) exes (elim b [
          | true ↦ none
          | false ↦ add_executors srcs (upsert src.name (put_exe src) exes)
        ])
    by_before true e d put = (src.name, Checked-twice src srcs exes e d)
    by_before false e d put = Checked-put src srcs exes _ s e d (put d)

    by_option :
        (o : Option ExeOption)
        → src.option ≡ o
        → Checked srcs exes (add_executors srcs exes)
        → (is_defined (find src.name exes) ≡ false
            → Checked srcs
                (upsert src.name (put_exe src) exes)
                (add_executors srcs (upsert src.name (put_exe src) exes)))
        → Checked (src ∷ srcs) exes (elim o [
          | none ↦ add_executors srcs exes
          | some option ↦ elim (is_defined (find src.name exes)) [
            | true ↦ none
            | false ↦ add_executors srcs (upsert src.name (put_exe src) exes)
          ]
        ])
    by_option none e skip put = Checked-declared src srcs exes _ e skip
    by_option (some option) e skip put = by_before (is_defined (find src.name exes)) e refl put
