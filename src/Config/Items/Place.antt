-- ===== src/Config/Items/Place.antt =====
-- Where one patch puts its element: the search, the index arithmetic and the rotations of
-- `PatchListNode` against lists cut at the element of the name.
use aimrt_comm.Base.{
  String, ◌≡◌, refl, ap, false, List, [], ◌∷◌, ◌++◌, length, set, erase_idx, if◌then◌else◌, str_eq,
  str_eq_refl,
}
use aimrt_comm.Base.Outcome.{Outcome, ok, fail, ◌>>=◌, patch_non_existed, same_config_existed}
use aimrt_comm.Config.Yaml.{Yaml}
use aimrt_comm.Config.Modes.{PatchMode, extract_custom_tag, analyze_patch_mode}
use aimrt_comm.Config.Merge.Map.{is_undefined}
use aimrt_comm.Config.Items.{
  Handler, find_item, insert_new, do_override, compare_and_replace, patch_existing, patch_item,
}
use aimrt_comm.Config.Items.Rotate.{push_front-eq-cons}

module _ {ℓ} {A : Type ℓ} where
  pub set-append :
      (before after : List A) (x c : A)
      → set (before ++ x ∷ after) (length before) c ≡ before ++ c ∷ after
  set-append [] after x c = refl
  set-append (b ∷ before) after x c = ap (λ l. b ∷ l) (set-append before after x c)

  pub erase_idx-append :
      (before after : List A) (x : A)
      → erase_idx (before ++ x ∷ after) (length before) ≡ before ++ after
  erase_idx-append [] after x = refl
  erase_idx-append (b ∷ before) after x = ap (λ l. b ∷ l) (erase_idx-append before after x)

module _ (y : Yaml) where
  open y use {Node, kind, tag, absent, kind-absent}

  -- every element has a key, and none has the name
  abbrev pub Lacks : (Node → Outcome String) → String → List Node → Type 0
  Lacks key name [] = Unit
  Lacks key name (x ∷ xs) =
      ((k : String) × (key x ≡ ok k) × (str_eq k name ≡ false)) × Lacks key name xs

  -- the list that a patch of an element present leaves, from its new value and its merged one
  pub place :
      PatchMode → Outcome Node → Outcome Node → List Node → Node → List Node → Outcome (List Node)
  place m new merged before r after =
      if m.override
      then (do c ← new; ok (before ++ c ∷ after))
      else if m.override_front
      then (do c ← new; ok (c ∷ before ++ after))
      else if m.override_back
      then (do c ← new; ok ((before ++ after) ++ c ∷ []))
      else if m.skip
      then ok (before ++ r ∷ after)
      else if m.delete
      then ok (before ++ after)
      else if m.merge
      then (do c ← merged; ok (before ++ c ∷ after))
      else fail same_config_existed

  -- the list that a patch of an element that is not there leaves
  pub place_new : PatchMode → List Node → Node → Outcome (List Node)
  place_new m xs e =
      if m.new_front
      then ok (e ∷ xs)
      else if m.new_back
      then ok (xs ++ e ∷ [])
      else if m.new_never
      then ok xs
      else fail patch_non_existed

  pub find_item-append :
      (key : Node → Outcome String) (name : String) (before : List Node) (r : Node)
      (after : List Node)
      → Lacks key name before
      → key r ≡ ok name
      → find_item y key name (before ++ r ∷ after) ≡ ok (length before, r)
  unfolding find_item
  find_item-append key name [] r after h k = rw (k, str_eq_refl) refl
  find_item-append key name (b ∷ before) r after ((i, has, other), h) k =
      rw (has, other, find_item-append key name before r after h k) refl

  pub find_item-none :
      (key : Node → Outcome String) (name : String) (xs : List Node)
      → Lacks key name xs
      → find_item y key name xs ≡ ok (length xs, absent)
  unfolding find_item
  find_item-none key name [] h = refl
  find_item-none key name (x ∷ xs) ((i, has, other), h) =
      rw (has, other, find_item-none key name xs h) refl

  existing_placed :
      (handler : Handler y) (m : PatchMode) (before : List Node) (r : Node) (after : List Node)
      (e : Node)
      → patch_existing y handler m (before ++ r ∷ after) (length before) r e
        ≡ place m (do_override y handler m r e) (compare_and_replace y r e) before r after
  unfolding patch_existing place
  existing_placed handler m before r after e =
      simp (set-append, erase_idx-append, push_front-eq-cons) refl

  module _ (handler : Handler y) (key : Node → Outcome String) (m : PatchMode) (name : String)
      (e : Node) (modes : analyze_patch_mode (extract_custom_tag (tag e)) ≡ ok m)
      (named : key e ≡ ok name) where
    -- Patching a list that has the patch's name: the first element of that name, where it is defined
    -- and those before it have keys, is replaced where it stands, moved to the front or to the back
    -- with its new value, left, removed or merged, as the modes say; every other element keeps its
    -- value and its order; and where no mode fits the patch fails with `same_config_existed`.
    pub patch_item_present :
        (before : List Node) (r : Node) (after : List Node)
        → Lacks key name before
        → key r ≡ ok name
        → is_undefined y r ≡ false
        → patch_item y handler key (before ++ r ∷ after) e
          ≡ place m (do_override y handler m r e) (compare_and_replace y r e) before r after
    unfolding patch_item
    patch_item_present before r after h k d =
        rw (modes, named, find_item-append key name before r after h k, d)
          (existing_placed handler m before r after e)

    -- Patching a list without the name: the element is put in front or behind, or the list is left,
    -- as the modes say; and a patch with none of the modes for new elements fails with
    -- `patch_non_existed`, whatever else it asks for: also with `merge` or `skip`.
    pub patch_item_absent :
        (xs : List Node) → Lacks key name xs → patch_item y handler key xs e ≡ place_new m xs e
    unfolding patch_item insert_new place_new
    patch_item_absent xs h =
        rw (modes, named, find_item-none key name xs h, kind-absent, push_front-eq-cons) refl
