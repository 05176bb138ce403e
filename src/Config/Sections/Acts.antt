-- ===== src/Config/Sections/Acts.antt =====
-- Which sections a merge or a patch of the `aimrt` node changes, and into what.
use aimrt_comm.Base.{
  String, ◌≡◌, refl, sym, ap, ◌∙◌, Bool, true, false, List, [], ◌∷◌, if◌then◌else◌, str_eq,
  str_eq_refl, str_eq→eq, arith, Bool-cases, inl, inr,
}
use aimrt_comm.Base.Outcome.{ok, ◌>>=◌, >>=-eq-ok, ok-injective}
use aimrt_comm.Config.Yaml.{Kind, Yaml}
use aimrt_comm.Config.Merge.Map.{is_undefined}
use aimrt_comm.Config.Items.{Handler, subscript, merge_map_handler}
use aimrt_comm.Config.Items.Keys.{elem}
use aimrt_comm.Config.Sections.{at_key, when_defined, ◌then_also◌}
use aimrt_comm.Config.Sections.Merging.{
  merge_aimrt_log_node, merge_aimrt_plugin_node, merge_aimrt_channel_node, merge_aimrt_rpc_node,
  merge_aimrt_executor_node, merge_aimrt_module_node, merge_aimrt_node,
}
use aimrt_comm.Config.Sections.Patching.{
  patch_map_node, patch_aimrt_log_node, patch_aimrt_plugin_node, patch_aimrt_channel_node,
  patch_aimrt_rpc_node, patch_aimrt_executor_node, patch_aimrt_module_node, patch_aimrt_node,
}

module _ (y : Yaml) where
  open y use {Node, kind, field, set_field, field-set_field, kind-set_field}

  abbrev pub Section : Type 0
  Section = String × Handler y

  abbrev pub names : List Section → List String
  names [] = []
  names ((k, h) ∷ ss) = k ∷ names ss

  -- each section of the result is what its handler makes of the section before
  abbrev pub Handled : List Section → Node → Node → Node → Type 0
  Handled [] res ext out = Unit
  Handled ((k, h) ∷ ss) res ext out =
      (h (field res k) (field ext k) ≡ ok (field out k)) × Handled ss res ext out

  -- the result is a map, has the sections that the handlers make, and the other fields as before
  pub record Acts (ss : List Section) (res ext out : Node) : Type 0 where
    pub still_map : kind out ≡ Kind.map
    pub handled : Handled ss res ext out
    pub others :
        (j : String) → field out j ≡ (if elem j (names ss) then field out j else field res j)

  pub subscript-ok : (n : Node) (k : String) (c : Node) → subscript y n k ≡ ok c → c ≡ field n k
  unfolding subscript
  subscript-ok n k c h = ground arith

  pub field-set_ne :
      (n : Node) (k j : String) (v : Node)
      → kind n ≡ Kind.map
      → str_eq k j ≡ false
      → field (set_field n k v) j ≡ field n j
  field-set_ne n k j v h other = field-set_field n k j v h ∙ rw other refl

  pub field-set_self :
      (n : Node) (k : String) (v : Node) → kind n ≡ Kind.map → field (set_field n k v) k ≡ v
  field-set_self n k v h = field-set_field n k k v h ∙ rw str_eq_refl refl

  -- what a successful `at_key` did
  pub at_key-ok :
      (h : Handler y) (k : String) (res ext out : Node)
      → at_key y h k res ext ≡ ok out
      → (c : Node) × (h (field res k) (field ext k) ≡ ok c) × (set_field res k c ≡ out)
  unfolding at_key
  at_key-ok h k res ext out run =
      let (r, got, run1) =
        >>=-eq-ok (subscript y res k)
          (λ r. subscript y ext k >>= λ e. h r e >>= λ c. ok (set_field res k c)) run in
      let (e, had, run2) =
        >>=-eq-ok (subscript y ext k) (λ e. h r e >>= λ c. ok (set_field res k c)) run1 in
      let (c, did, last) = >>=-eq-ok (h r e) (λ c. ok (set_field res k c)) run2 in
      (c, rw (subscript-ok res k r got, subscript-ok ext k e had) at did, ok-injective last)

  unless : {a b : Node} (t : Bool) → (t ≡ false → a ≡ b) → a ≡ (if t then a else b)
  unless true h = refl
  unless false h = h refl

  pub others_at :
      {ss : List Section} {res ext out : Node} (j : String)
      → Acts ss res ext out
      → elem j (names ss) ≡ false
      → field out j ≡ field res j
  others_at j acts h = rw h at (acts.others j)

  at_key-Acts :
      (h : Handler y) (k : String) (res ext out : Node)
      → kind res ≡ Kind.map
      → at_key y h k res ext ≡ ok out
      → Acts ((k, h) ∷ []) res ext out
  at_key-Acts h k res ext out res_map run =
      let (c, did, made) = at_key-ok h k res ext out run in
      rw (← made) (record {
        still_map = kind-set_field res k c res_map;
        handled = (did ∙ ap ok (sym (field-set_self res k c res_map)), tt);
        others = λ j.
            unless (elem j (k ∷ [])) (λ other. field-set_ne res k j c res_map (only k j other));
      })
    where
      only : (k j : String) → elem j (k ∷ []) ≡ false → str_eq k j ≡ false
      only k j h = ground arith

  Handled-cong :
      (ss : List Section) (res res' ext out : Node)
      → ((j : String) → elem j (names ss) ≡ true → field res' j ≡ field res j)
      → Handled ss res' ext out
      → Handled ss res ext out
  Handled-cong [] res res' ext out same h = tt
  Handled-cong ((k, h) ∷ ss) res res' ext out same (first, rest) = (
    ap (λ n. h n (field ext k)) (sym (same k (rw str_eq_refl refl))) ∙ first,
    Handled-cong ss res res' ext out (λ j m. same j (later (str_eq k j) (elem j (names ss)) m))
        rest,
  )
    where
      later : (a b : Bool) → b ≡ true → (if a then true else b) ≡ true
      later a b h = ground arith

  abbrev Does : List Section → Handler y → Type 0
  Does ss h = (res ext out : Node) → kind res ≡ Kind.map → h res ext ≡ ok out → Acts ss res ext out

  differ :
      (k j : String) (ks : List String) → elem k ks ≡ false → elem j ks ≡ true → str_eq k j ≡ false
  differ k j ks absent present = elim (Bool-cases (str_eq k j)) [
    | inl same ↦
        (let clash : ◌≡◌ {A = Bool} true false =
            sym present ∙ ap (λ i. elem i ks) (sym (str_eq→eq k j same)) ∙ absent in
          cc)
    | inr other ↦ other
  ]

  then_also-Does :
      (h : Handler y) (k : String) (ss : List Section) (rest : Handler y)
      → elem k (names ss) ≡ false
      → Does ss rest
      → Does ((k, h) ∷ ss) (◌then_also◌ y (at_key y h k) rest)
  unfolding ◌then_also◌
  then_also-Does h k ss rest fresh does res ext out res_map run =
      let (mid, one, two) = >>=-eq-ok (at_key y h k res ext) (λ r. rest r ext) run in
      let (c, did, made) = at_key-ok h k res ext mid one in
      let mid_map : kind mid ≡ Kind.map = rw (← made) (kind-set_field res k c res_map) in
      let acts = does mid ext out mid_map two in
      let kept : field out k ≡ c =
        others_at k acts fresh ∙ ap (λ n. field n k) (sym made) ∙ field-set_self res k c res_map in
      let same : (j : String) → str_eq k j ≡ false → field mid j ≡ field res j =
        λ j other. ap (λ n. field n j) (sym made) ∙ field-set_ne res k j c res_map other in
      record {
        still_map = acts.still_map;
        handled = (
          did ∙ ap ok (sym kept),
          Handled-cong ss res mid ext out (λ j m. same j (differ k j (names ss) fresh m))
              acts.handled,
        );
        others = λ j. unless (elem j (k ∷ names ss)) (λ other.
            others_at j acts (tail_absent (str_eq k j) (elem j (names ss)) other)
            ∙ same j (head_differs (str_eq k j) (elem j (names ss)) other));
      }
    where
      tail_absent : (a b : Bool) → (if a then true else b) ≡ false → b ≡ false
      tail_absent a b h = ground arith

      head_differs : (a b : Bool) → (if a then true else b) ≡ false → a ≡ false
      head_differs a b h = ground arith

  abbrev pub patched_sections : List Section
  patched_sections =
      ("configurator", patch_map_node y)
      ∷ ("main_thread", patch_map_node y)
      ∷ ("guard_thread", patch_map_node y)
      ∷ ("log", patch_aimrt_log_node y)
      ∷ ("plugin", patch_aimrt_plugin_node y)
      ∷ ("channel", patch_aimrt_channel_node y)
      ∷ ("rpc", patch_aimrt_rpc_node y)
      ∷ ("executor", patch_aimrt_executor_node y)
      ∷ ("module", patch_aimrt_module_node y)
      ∷ []

  -- A patch of the `aimrt` node that succeeds leaves a map in which each of the nine sections is
  -- what that section's own patch makes of it, and every other field is as before.
  pub patch_aimrt_node-Acts :
      (res ext out : Node)
      → kind res ≡ Kind.map
      → is_undefined y ext ≡ false
      → patch_aimrt_node y res ext ≡ ok out
      → Acts patched_sections res ext out
  unfolding patch_aimrt_node when_defined
  patch_aimrt_node-Acts res ext out res_map given run =
      then_also-Does _ _ _ _ refl
        (then_also-Does _ _ _ _ refl (
          then_also-Does _ _ _ _ refl (
            then_also-Does _ _ _ _ refl (
              then_also-Does _ _ _ _ refl (
                then_also-Does _ _ _ _ refl
                  (then_also-Does _ _ _ _ refl (then_also-Does _ _ _ _ refl (at_key-Acts _ _))))))))
        res ext out res_map (rw given at run)

  abbrev pub merged_sections : List Section
  merged_sections =
      ("configurator", merge_map_handler y)
      ∷ ("main_thread", merge_map_handler y)
      ∷ ("guard_thread", merge_map_handler y)
      ∷ ("log", merge_aimrt_log_node y)
      ∷ ("plugin", merge_aimrt_plugin_node y)
      ∷ ("channel", merge_aimrt_channel_node y)
      ∷ ("rpc", merge_aimrt_rpc_node y)
      ∷ ("executor", merge_aimrt_executor_node y)
      ∷ ("module", merge_aimrt_module_node y)
      ∷ []

  -- The same of a merge of the `aimrt` node: nine sections, each by its own merge, and nothing else.
  pub merge_aimrt_node-Acts :
      (res ext out : Node)
      → kind res ≡ Kind.map
      → is_undefined y ext ≡ false
      → merge_aimrt_node y res ext ≡ ok out
      → Acts merged_sections res ext out
  unfolding merge_aimrt_node when_defined
  merge_aimrt_node-Acts res ext out res_map given run =
      then_also-Does _ _ _ _ refl
        (then_also-Does _ _ _ _ refl (
          then_also-Does _ _ _ _ refl (
            then_also-Does _ _ _ _ refl (
              then_also-Does _ _ _ _ refl (
                then_also-Does _ _ _ _ refl
                  (then_also-Does _ _ _ _ refl (then_also-Does _ _ _ _ refl (at_key-Acts _ _))))))))
        res ext out res_map (rw given at run)
