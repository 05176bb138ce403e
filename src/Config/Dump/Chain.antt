-- ===== src/Config/Dump/Chain.antt =====
-- The patches of `DumpFile`, one file after the other, at the root node.
use aimrt_comm.Base.{String, ◌≡◌, refl, sym, ap, ◌∙◌, false, List, [], ◌∷◌, ◌++◌, str_eq}
use aimrt_comm.Base.Outcome.{Outcome, ok, ◌>>=◌, >>=-eq-ok, ok-injective}
use aimrt_comm.Config.Yaml.{Kind, Yaml}
use aimrt_comm.Config.Items.{subscript}
use aimrt_comm.Config.Sections.{at_key}
use aimrt_comm.Config.Sections.Merging.{merge_aimrt_node}
use aimrt_comm.Config.Sections.Patching.{patch_aimrt_node}
use aimrt_comm.Config.Sections.Acts.{subscript-ok, at_key-ok, field-set_self, field-set_ne}
use aimrt_comm.Config.Dump.{patch_root, patch_files, inject_root}

module _ (y : Yaml) where
  open y use {Node, kind, field, set_field, entries, kind-set_field}

  -- the patches of one node, one after the other
  unfoldable pub patched_by : List Node → Node → Outcome Node
  patched_by [] n = ok n
  patched_by (patch ∷ patches) n =
      patch_aimrt_node y n (field patch "aimrte") >>= patched_by patches

  -- the paths are read as these nodes
  unfoldable pub read_all : (String → Outcome Node) → List String → Outcome (List Node)
  read_all read_yaml [] = ok []
  read_all read_yaml (path ∷ paths) = do
    node ← read_yaml path
    nodes ← read_all read_yaml paths
    ok (node ∷ nodes)

  -- a root that is changed at the `aimrt` node only, to `aimrt`
  pub record Becomes (root aimrt root' : Node) : Type 0 where
    pub still_map : kind root' ≡ Kind.map
    pub aimrt_is : field root' "aimrt" ≡ aimrt
    pub others : (j : String) → str_eq "aimrt" j ≡ false → field root' j ≡ field root j

  set_field-Becomes :
      (root aimrt : Node) → kind root ≡ Kind.map → Becomes root aimrt (set_field root "aimrt" aimrt)
  set_field-Becomes root aimrt h = record {
    still_map = kind-set_field root "aimrt" aimrt h;
    aimrt_is = field-set_self y root "aimrt" aimrt h;
    others = λ j other. field-set_ne y root "aimrt" j aimrt h other;
  }

  pub Becomes-then :
      {root mid root' n m : Node} → Becomes root n mid → Becomes mid m root' → Becomes root m root'
  Becomes-then a b = record {
    still_map = b.still_map;
    aimrt_is = b.aimrt_is;
    others = λ j other. b.others j other ∙ a.others j other;
  }

  -- what is written at the `aimrt` node is what stands there
  written :
      (root c root' : Node) {act : Outcome Node}
      → kind root ≡ Kind.map
      → act ≡ ok c
      → set_field root "aimrt" c ≡ root'
      → (act ≡ ok (field root' "aimrt")) × Becomes root (field root' "aimrt") root'
  written root c root' h did made =
      let b = set_field-Becomes root c h in
      let is : c ≡ field root' "aimrt" = sym b.aimrt_is ∙ ap (λ r. field r "aimrt") made in
      (did ∙ ap ok is, rw (← made) (rw b.aimrt_is b))

  pub patch_root-Becomes :
      (root patch root' : Node)
      → kind root ≡ Kind.map
      → patch_root y root patch ≡ ok root'
      → (patch_aimrt_node y (field root "aimrt") (field patch "aimrte") ≡ ok (field root' "aimrt"))
        × Becomes root (field root' "aimrt") root'
  unfolding patch_root
  patch_root-Becomes root patch root' h run =
      let (res, got, run1) = >>=-eq-ok (subscript y root "aimrt") _ run in
      let (ext, had, run2) = >>=-eq-ok (subscript y patch "aimrte") _ run1 in
      let (c, did, last) = >>=-eq-ok (patch_aimrt_node y res ext) _ run2 in
      written root c root' h
        (rw (subscript-ok y root "aimrt" res got, subscript-ok y patch "aimrte" ext had) at did)
        (ok-injective last)

  pub inject_root-Becomes :
      (inject : Node → Outcome Node) (root root' : Node)
      → kind root ≡ Kind.map
      → inject_root y inject root ≡ ok root'
      → (inject (field root "aimrt") ≡ ok (field root' "aimrt"))
        × Becomes root (field root' "aimrt") root'
  unfolding inject_root
  inject_root-Becomes inject root root' h run =
      let (res, got, run1) = >>=-eq-ok (subscript y root "aimrt") _ run in
      let (c, did, last) = >>=-eq-ok (inject res) _ run1 in
      written root c root' h (rw (subscript-ok y root "aimrt" res got) at did) (ok-injective last)

  pub merge_root-Becomes :
      (root ext root' : Node)
      → kind root ≡ Kind.map
      → at_key y (merge_aimrt_node y) "aimrt" root ext ≡ ok root'
      → (merge_aimrt_node y (field root "aimrt") (field ext "aimrt") ≡ ok (field root' "aimrt"))
        × Becomes root (field root' "aimrt") root'
  merge_root-Becomes root ext root' h run =
      let (c, did, made) = at_key-ok y (merge_aimrt_node y) "aimrt" root ext root' run in
      written root c root' h did made

  pub patch_files-Becomes :
      (read_yaml : String → Outcome Node) (paths : List String) (root root' : Node)
      → kind root ≡ Kind.map
      → patch_files y read_yaml paths root ≡ ok root'
      → (nodes : List Node) × (read_all read_yaml paths ≡ ok nodes)
        × (patched_by nodes (field root "aimrt") ≡ ok (field root' "aimrt"))
        × Becomes root (field root' "aimrt") root'
  unfolding patch_files patched_by read_all
  patch_files-Becomes read_yaml [] root root' h run =
      let same = ok-injective run in
      (
        [],
        refl,
        ap (λ r. ok (field r "aimrt")) same,
        rw (← same) (record { still_map = h; aimrt_is = refl; others = λ j other. refl }),
      )
  patch_files-Becomes read_yaml (path ∷ paths) root root' h run =
      let (node, got, run1) = >>=-eq-ok (read_yaml path) _ run in
      let (mid, one, rest) = >>=-eq-ok (patch_root y root node) _ run1 in
      let (did, b) = patch_root-Becomes root node mid h one in
      let (nodes, read, by, b') = patch_files-Becomes read_yaml paths mid root' b.still_map rest in
      (
        node ∷ nodes,
        rw (got, read) refl,
        ap (λ m. m >>= patched_by nodes) did ∙ by,
        Becomes-then b b',
      )

  pub patched_by-cons :
      (p : Node) (qs : List Node) (n m out : Node)
      → patch_aimrt_node y n (field p "aimrte") ≡ ok m
      → patched_by qs m ≡ ok out
      → patched_by (p ∷ qs) n ≡ ok out
  unfolding patched_by
  patched_by-cons p qs n m out h k = ap (λ r. r >>= patched_by qs) h ∙ k

  pub patched_by-append :
      (ps qs : List Node) (n m out : Node)
      → patched_by ps n ≡ ok m
      → patched_by qs m ≡ ok out
      → patched_by (ps ++ qs) n ≡ ok out
  unfolding patched_by
  patched_by-append [] qs n m out h k = ap (patched_by qs) (ok-injective h) ∙ k
  patched_by-append (p ∷ ps) qs n m out h k =
      let (mid, one, two) = >>=-eq-ok (patch_aimrt_node y n (field p "aimrte")) (patched_by ps) h in
      patched_by-cons p (ps ++ qs) n mid out one (patched_by-append ps qs mid m out two k)
