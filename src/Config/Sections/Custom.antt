-- ===== src/Config/Sections/Custom.antt =====
-- What `MergeCustomNodes` leaves of a root node (src/module/cfg_processor.cpp).
use aimrt_comm.Base.{
  String, ◌≡◌, refl, sym, ap, ◌∙◌, Bool, true, false, List, [], ◌∷◌, if◌then◌else◌, str_eq,
  str_eq→eq, Bool-cases, arith, inl, inr,
}
use aimrt_comm.Config.Yaml.{Kind, Yaml}
use aimrt_comm.Config.Merge.Map.{merge_map}
use aimrt_comm.Config.Sections.Merging.{merge_custom_nodes}

module _ (y : Yaml) where
  open y use {Node, kind, field, set_field, field-set_field, kind-set_field}

  same_branches : (b : Bool) (n : Node) → n ≡ (if b then n else n)
  same_branches b n = ground arith

  -- the nodes of one name merged one after another, the first one first
  unfoldable pub merge_named : String → List (String × Node) → Node → Node
  merge_named name [] n = n
  merge_named name ((k, e) ∷ es) n =
      let merged = merge_named name es (merge_map y n e) in
      let other = merge_named name es n in if str_eq k name then merged else other

  -- Merging the custom nodes leaves a map in which the `aimrt` node is as before and every other node
  -- is merged with the external nodes of its name, and with nothing else.
  pub merge_custom_nodes_lem :
      (es : List (String × Node)) (root : Node) (name : String)
      → kind root ≡ Kind.map
      → (kind (merge_custom_nodes y es root) ≡ Kind.map)
        × (field (merge_custom_nodes y es root) name ≡ (
            if str_eq name "aimrt" then field root name else merge_named name es (field root name)))
  unfolding merge_custom_nodes merge_named
  merge_custom_nodes_lem [] root name h = (h, same_branches (str_eq name "aimrt") (field root name))
  merge_custom_nodes_lem ((k, e) ∷ es) root name h = elim (Bool-cases (str_eq k "aimrt")) [
    | inl skipped ↦
        let (m, f) = merge_custom_nodes_lem es root name h in
        rw skipped (
          m,
          f ∙ elim (Bool-cases (str_eq k name)) [
            | inl same ↦
                (let is : str_eq name "aimrt" ≡ true =
                    ap (λ n. str_eq n "aimrt") (sym (str_eq→eq k name same)) ∙ skipped in
                  rw is refl)
            | inr other ↦ rw other refl
          ],
        )
    | inr custom ↦
        let root' = set_field root k (merge_map y (field root k) e) in
        let (m, f) = merge_custom_nodes_lem es root' name (kind-set_field root k _ h) in
        rw custom (
          m,
          f ∙ elim (Bool-cases (str_eq k name)) [
            | inl same ↦
                let is : field root' name ≡ merge_map y (field root name) e =
                  field-set_field root k name _ h ∙ rw (same, str_eq→eq k name same) refl in
                let no : str_eq name "aimrt" ≡ false =
                  ap (λ n. str_eq n "aimrt") (sym (str_eq→eq k name same)) ∙ custom in
                rw (no, same, is) refl
            | inr other ↦
                let is : field root' name ≡ field root name =
                  field-set_field root k name _ h ∙ rw other refl in
                rw (other, is) refl
          ],
        )
  ]
