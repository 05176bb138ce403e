-- ===== src/Config/Deployment/Chosen.antt =====
-- Which node of the deployment file is this process's.
use aimrt_comm.Base.{
  String, ◌≡◌, Bool, true, false, Option, none, some, List, [], ◌∷◌, if◌then◌else◌,
}
use mathlib.Core.Path.{subst}
use aimrt_comm.Base.Outcome.{Outcome, ok, >>=-eq-ok, ok-injective}
use aimrt_comm.Config.Yaml.{Kind, Yaml}
use aimrt_comm.Config.Items.{subscript}
use aimrt_comm.Config.Deployment.{
  find_first, is_app, is_executable, node_or_absent, search_executables, search_spec,
  find_matching_node,
}

-- the first element that passes a test, where every one before it fails it
pub data First {ℓ} {A : Type ℓ} (test : A → Outcome Bool) : List A → Option A → Type ℓ where
  nowhere : First test [] none
  here : (x : A) (xs : List A) → test x ≡ ok true → First test (x ∷ xs) (some x)
  later :
      (x : A) (xs : List A) (found : Option A)
      → test x ≡ ok false
      → First test xs found
      → First test (x ∷ xs) found

after_test {ℓ} :
    {A : Type ℓ} (test : A → Outcome Bool) (x : A) (xs : List A) {found : Option A} (hit : Bool)
    (rest : (r : Option A) → find_first test xs ≡ ok r → First test xs r)
    → test x ≡ ok hit
    → (if hit then ok (some x) else find_first test xs) ≡ ok found
    → First test (x ∷ xs) found
after_test test x xs {found} true rest tested went =
    subst (λ r. First test (x ∷ xs) r) (ok-injective went) (here x xs tested)
after_test test x xs {found} false rest tested went = later x xs found tested (rest found went)

pub find_first-First {ℓ} :
    {A : Type ℓ} (test : A → Outcome Bool) (xs : List A) {found : Option A}
    → find_first test xs ≡ ok found
    → First test xs found
unfolding find_first
find_first-First test [] h = subst (λ r. First test [] r) (ok-injective h) nowhere
find_first-First test (x ∷ xs) h =
    let (hit, tested, went) = >>=-eq-ok (test x) _ h in
    after_test test x xs hit (λ r there. find_first-First test xs there) tested went

module _ (y : Yaml) where
  open y use {Node, kind, absent, items}

  -- the first node with the process as its `app`; else the first with the process among its
  -- executables; else none
  pub data Chosen (process_name : String) (nodes : List Node) : Node → Type 0 where
    by_app : (n : Node) → First (is_app y process_name) nodes (some n) → Chosen process_name nodes n
    by_executable :
        (n : Node)
        → First (is_app y process_name) nodes none
        → First (is_executable y process_name) nodes (some n)
        → Chosen process_name nodes n
    not_deployed :
        First (is_app y process_name) nodes none
        → First (is_executable y process_name) nodes none
        → Chosen process_name nodes absent

  after_both :
      (process_name : String) (nodes : List Node) (found : Option Node) {n : Node}
      → First (is_app y process_name) nodes none
      → First (is_executable y process_name) nodes found
      → ok (node_or_absent y found) ≡ ok n
      → Chosen process_name nodes n
  unfolding node_or_absent
  after_both process_name nodes (some found) no_app by h =
      subst (λ n. Chosen process_name nodes n) (ok-injective h) (by_executable found no_app by)
  after_both process_name nodes none no_app by h =
      subst (λ n. Chosen process_name nodes n) (ok-injective h) (not_deployed no_app by)

  after_apps :
      (process_name : String) (nodes : List Node) (app : Option Node) {n : Node}
      → First (is_app y process_name) nodes app
      → search_executables y process_name nodes app ≡ ok n
      → Chosen process_name nodes n
  unfolding search_executables node_or_absent
  after_apps process_name nodes (some app) by h =
      subst (λ n. Chosen process_name nodes n) (ok-injective h) (by_app app by)
  after_apps process_name nodes none by h =
      let (found, ran, went) = >>=-eq-ok (find_first (is_executable y process_name) nodes) _ h in
      after_both process_name nodes found by (find_first-First _ nodes ran) went

  searched :
      (process_name : String) (deployment spec : Node) {n : Node}
      → subscript y deployment "spec" ≡ ok spec
      → kind spec ≡ Kind.sequence
      → find_matching_node y process_name deployment ≡ ok n
      → search_spec y process_name (items spec) ≡ ok n
  unfolding find_matching_node
  searched process_name deployment spec at_spec is_list h = cc

  -- Where `spec` is a sequence and no test throws, the node found is the first whose `app` is the
  -- process; where there is none such, the first whose executables name the process; where there is
  -- none of either, the null node.
  pub find_matching_node-Chosen :
      (process_name : String) (deployment spec : Node) {n : Node}
      → subscript y deployment "spec" ≡ ok spec
      → kind spec ≡ Kind.sequence
      → find_matching_node y process_name deployment ≡ ok n
      → Chosen process_name (items spec) n
  unfolding find_matching_node search_spec
  find_matching_node-Chosen process_name deployment spec at_spec is_list h =
      let whole = searched process_name deployment spec at_spec is_list h in
      let (app, ran, went) = >>=-eq-ok (find_first (is_app y process_name) (items spec)) _ whole in
      after_apps process_name (items spec) app (find_first-First _ (items spec) ran) went
