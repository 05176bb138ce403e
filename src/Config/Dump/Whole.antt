-- ===== src/Config/Dump/Whole.antt =====
-- What `DumpFile` makes as a whole (src/module/cfg_processor.cpp).
use aimrt_comm.Base.{
  String, ◌≡◌, sym, ap, ◌∙◌, refl, false, List, [], ◌∷◌, ◌++◌, str_eq, str_eq_comm, str_eq→eq,
  Bool-cases, inl, inr,
}
use aimrt_comm.Base.Outcome.{ok, >>=-eq-ok, ok-injective}
use aimrt_comm.Config.Yaml.{Kind, Yaml}
use aimrt_comm.Config.Merge.Map.{merge_map}
use aimrt_comm.Config.Sections.{at_key}
use aimrt_comm.Config.Sections.Merging.{merge_aimrt_node, merge_custom_nodes}
use aimrt_comm.Config.Sections.Acts.{patched_sections}
use aimrt_comm.Config.Sections.Custom.{merge_named, merge_custom_nodes_lem}
use aimrt_comm.Config.Dump.{
  Run, patch_root, patch_files, inject_root, read_ext, entries_after, dump_file,
}
use aimrt_comm.Config.Dump.BySection.{Sectioned, patched_by-Sectioned}
use aimrt_comm.Config.Dump.Chain.{
  patched_by, read_all, Becomes-then, patch_root-Becomes, inject_root-Becomes, merge_root-Becomes,
  patch_files-Becomes, patched_by-cons, patched_by-append,
}

module _ (y : Yaml) where
  open y use {Node, kind, field, entries}

  -- the parts of a dump: what was read, the framework's configuration after the user's file and after
  -- the defaults, and the result by sections and by the nodes of the modules
  pub record Dumped (run : Run y) (out : Node) : Type 0 where
    pub ext : Node
    pub before : List Node
    pub user : List Node
    pub after : List Node
    pub merged : Node
    pub injected : Node
    pub ext_read : read_ext y run ≡ ok ext
    pub before_read : read_all y run.read_yaml run.before ≡ ok before
    pub user_read : read_all y run.read_yaml run.user ≡ ok user
    pub after_read : read_all y run.read_yaml run.after ≡ ok after
    pub merged_is : merge_aimrt_node y (field run.made "aimrt") (field ext "aimrt") ≡ ok merged
    pub injected_is : run.inject merged ≡ ok injected
    pub patched : patched_by y (before ++ (ext ∷ (user ++ after))) injected ≡ ok (field out "aimrt")
    pub sections :
        Sectioned y
          (patched_sections y)
          (before ++ (ext ∷ (user ++ after)))
          injected
          (field out "aimrt")
    pub modules :
        (name : String)
        → str_eq name "aimrt" ≡ false
        → str_eq "aimrte" name ≡ false
        → field out name ≡ merge_named y name (entries ext) (field run.made name)

  merge_named-entries_after :
      (name : String) (es : List (String × Node)) (aimrte n : Node)
      → str_eq "aimrte" name ≡ false
      → merge_named y name (entries_after y aimrte es) n ≡ merge_named y name es n
  unfolding entries_after merge_named
  merge_named-entries_after name [] aimrte n other = refl
  merge_named-entries_after name ((k, e) ∷ es) aimrte n other = elim (Bool-cases (str_eq k name)) [
    | inl found ↦
        (let kept : str_eq k "aimrte" ≡ false =
            ap (λ j. str_eq j "aimrte") (str_eq→eq k name found)
            ∙ str_eq_comm name "aimrte"
            ∙ other in
          rw (found, kept) (merge_named-entries_after name es aimrte (merge_map y n e) other))
    | inr passed ↦ rw passed (merge_named-entries_after name es aimrte n other)
  ]

  -- A dump that succeeds has merged the user's file into the framework's configuration and then
  -- injected the defaults; each section of the result is what the patches of that section make of it,
  -- in the order: those before, the user's file, those of the command line, those after. A node of any
  -- name but `aimrt` and `aimrte` is merged with the user's nodes of its name. It is assumed that the
  -- made configuration is a map and that the injection gives maps.
  pub dump_file-Dumped :
      (run : Run y) (out : Node)
      → kind run.made ≡ Kind.map
      → ((n m : Node) → run.inject n ≡ ok m → kind m ≡ Kind.map)
      → dump_file y run ≡ ok out
      → Dumped run out
  unfolding dump_file
  dump_file-Dumped run out made_map inject_map h =
      let (ext, ext_read, h1) = >>=-eq-ok (read_ext y run) _ h in
      let (root1, run1, h2) = >>=-eq-ok (at_key y (merge_aimrt_node y) "aimrt" run.made ext) _ h1 in
      let (root2, run2, h3) = >>=-eq-ok (inject_root y run.inject root1) _ h2 in
      let (root3, run3, h4) = >>=-eq-ok (patch_files y run.read_yaml run.before root2) _ h3 in
      let (root4, run4, h5) = >>=-eq-ok (patch_root y root3 ext) _ h4 in
      let (root5, run5, h6) = >>=-eq-ok (patch_files y run.read_yaml run.user root4) _ h5 in
      let (root6, run6, h7) = >>=-eq-ok (patch_files y run.read_yaml run.after root5) _ h6 in
      let (merged_is, b1) = merge_root-Becomes y run.made ext root1 made_map run1 in
      let (injected_is, b2) = inject_root-Becomes y run.inject root1 root2 b1.still_map run2 in
      let (before, before_read, by3, b3) =
        patch_files-Becomes y run.read_yaml run.before root2 root3 b2.still_map run3 in
      let (by4, b4) = patch_root-Becomes y root3 ext root4 b3.still_map run4 in
      let (user, user_read, by5, b5) =
        patch_files-Becomes y run.read_yaml run.user root4 root5 b4.still_map run5 in
      let (after, after_read, by6, b6) =
        patch_files-Becomes y run.read_yaml run.after root5 root6 b5.still_map run6 in
      let all =
        Becomes-then y
          (Becomes-then y (Becomes-then y (Becomes-then y (Becomes-then y b1 b2) b3) b4) b5) b6 in
      let ends = entries_after y run.aimrte_after (entries ext) in
      let custom = λ (name : String). merge_custom_nodes_lem y ends root6 name b6.still_map in
      let last : merge_custom_nodes y ends root6 ≡ out = ok-injective h7 in
      let kept : field root6 "aimrt" ≡ field out "aimrt" =
        sym (custom "aimrt").1 ∙ ap (λ r. field r "aimrt") last in
      let patched =
        patched_by-append y before (ext ∷ (user ++ after)) (field root2 "aimrt")
          (field root3 "aimrt") (field out "aimrt") by3
          (patched_by-cons y ext (user ++ after) (field root3 "aimrt") (field root4 "aimrt")
            (field out "aimrt") by4
            (patched_by-append y user after (field root4 "aimrt") (field root5 "aimrt")
              (field out "aimrt") by5 (by6 ∙ ap ok kept))) in
      record {
        ext = ext;
        before = before;
        user = user;
        after = after;
        merged = field root1 "aimrt";
        injected = field root2 "aimrt";
        ext_read = ext_read;
        before_read = before_read;
        user_read = user_read;
        after_read = after_read;
        merged_is = merged_is;
        injected_is = injected_is;
        patched = patched;
        sections =
            patched_by-Sectioned y (before ++ (ext ∷ (user ++ after))) (field root2 "aimrt")
              (field out "aimrt")
              (inject_map (field root1 "aimrt") (field root2 "aimrt") injected_is) patched;
        modules = λ name other not_patch.
            ap (λ r. field r name) (sym last)
            ∙ (custom name).1
            ∙ rw other (
                merge_named-entries_after name (entries ext) run.aimrte_after (field root6 name)
                  not_patch
                ∙ ap (merge_named y name (entries ext))
                    (all.others name (str_eq_comm "aimrt" name ∙ other)));
      }
