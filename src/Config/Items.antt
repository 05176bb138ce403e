-- ===== src/Config/Items.antt =====
-- Lists of settings that are identified by a key: `PatchListNode`, `MergeListNode`, `PushFront`
-- and `CompareAndReplaceNode` (src/module/cfg_processor.cpp). `assert` is taken as compiled in.
pub mod Rotate
pub mod Place
pub mod Keys
pub mod OneKey
pub mod Exact
use aimrt_comm.Base.{
  ℕ, zero, suc, ◌-◌, String, Bool, true, false, not, ◌||◌, ◌&&◌, List, [], ◌∷◌, ◌++◌, Option, none,
  some, length, set, erase_idx, if◌then◌else◌, str_eq,
}
use aimrt_comm.Base.Outcome.{
  Outcome, ok, fail, fail_if, of_option, ◌>>=◌, ◌>>◌, bad_conversion, bad_subscript, assertion,
  patch_non_existed, same_config_existed,
}
use aimrt_comm.Config.Yaml.{Yaml, is_map, is_sequence, is_scalar}
use aimrt_comm.Config.Modes.{
  PatchMode, extract_custom_tag, analyze_patch_mode, has_explicit_override_patch_mode,
}
use aimrt_comm.Config.Merge.Map.{is_undefined, merge_map}

-- one round of the loop of `PushFront`: the first element goes to the back
unfoldable pub rotate_once {ℓ} : {A : Type ℓ} → List A → List A
rotate_once [] = []
rotate_once (x ∷ xs) = xs ++ x ∷ []

unfoldable pub rotate {ℓ} : {A : Type ℓ} → ℕ → List A → List A
unfolding rotate_once
rotate zero xs = xs
rotate (suc n) xs = rotate n (rotate_once xs)

unfoldable pub push_front {ℓ} : {A : Type ℓ} → List A → A → List A
unfolding rotate
push_front list element = let list' = list ++ element ∷ [] in rotate (length list' - 1) list'

module _ (y : Yaml) where
  open y use {Node, kind, tag, absent, text?, items, field, set_field, set_items}

  abbrev pub Handler : Type 0
  Handler = Node → Node → Outcome Node

  -- `n[key]`, which throws on a scalar
  unfoldable pub subscript : Node → String → Outcome Node
  subscript n key = if is_scalar (kind n) then fail bad_subscript else ok (field n key)

  unfoldable pub as_string : Node → Outcome String
  as_string n = of_option bad_conversion (text? n)

  -- `n[id_key].as<std::string>()`
  unfoldable pub field_key : String → Node → Outcome String
  unfolding subscript as_string
  field_key id_key n = do c ← subscript n id_key; as_string c

  -- `get_key`; an empty `id_key` takes the element itself
  unfoldable pub get_key : String → Node → Outcome String
  unfolding field_key as_string
  get_key id_key n = if str_eq id_key "" then as_string n else field_key id_key n

  -- the search for the element of the name, with its index; a default node if there is none
  unfoldable pub find_item : (Node → Outcome String) → String → List Node → Outcome (ℕ × Node)
  find_item key name [] = ok (0, absent)
  find_item key name (x ∷ xs) =
      let rest = find_item key name xs in
      do k ← key x; if str_eq k name then ok (0, x) else (do (i, n) ← rest; ok (suc i, n))

  -- the loop over `res` in `CompareAndReplaceNode`
  unfoldable pub contains_text : String → List Node → Outcome Bool
  contains_text name [] = ok false
  contains_text name (x ∷ xs) =
      let rest = contains_text name xs in
      do k ← as_string x; if str_eq k name then ok true else rest

  unfoldable pub add_missing : List Node → List Node → List Node → Outcome (List Node)
  add_missing res merged [] = ok merged
  add_missing res merged (e ∷ es) = do
    name ← as_string e
    found ← contains_text name res
    add_missing res (if found then merged else merged ++ e ∷ []) es

  unfoldable pub compare_and_replace : Node → Node → Outcome Node
  compare_and_replace res ext =
      if is_map (kind ext) && is_map (kind res)
      then ok (merge_map y res ext)
      else if is_sequence (kind ext) && is_sequence (kind res)
      then (do xs ← add_missing (items res) (items res) (items ext); ok (set_items res xs))
      else ok ext

  -- the branches for a name that is not there
  unfoldable pub insert_new : PatchMode → List Node → Node → Outcome (List Node)
  insert_new modes res ext_i =
      if modes.new_front
      then ok (push_front res ext_i)
      else if modes.new_back
      then ok (res ++ ext_i ∷ [])
      else if modes.new_never
      then ok res
      else fail patch_non_existed

  -- `do_override`, which gives the element its new value
  unfoldable pub do_override : Handler → PatchMode → Node → Node → Outcome Node
  do_override handler modes res_i ext_i = if modes.explicit then ok ext_i else handler res_i ext_i

  -- the branches for a name that is there, at an index
  unfoldable pub patch_existing :
      Handler → PatchMode → List Node → ℕ → Node → Node → Outcome (List Node)
  patch_existing handler modes res idx res_i ext_i =
      if modes.override
      then (do r ← do_override handler modes res_i ext_i; ok (set res idx r))
      else if modes.override_front
      then (do
        r ← do_override handler modes res_i ext_i
        ok (push_front (erase_idx (set res idx r) idx) r))
      else if modes.override_back
      then (do
        r ← do_override handler modes res_i ext_i
        ok (erase_idx (set res idx r) idx ++ r ∷ []))
      else if modes.skip
      then ok res
      else if modes.delete
      then ok (erase_idx res idx)
      else if modes.merge
      then (do r ← compare_and_replace res_i ext_i; ok (set res idx r))
      else fail same_config_existed

  -- one round of the loop of `PatchListNode`
  unfoldable pub patch_item :
      Handler → (Node → Outcome String) → List Node → Node → Outcome (List Node)
  patch_item handler key res ext_i = do
    modes ← analyze_patch_mode (extract_custom_tag (tag ext_i))
    ext_name ← key ext_i
    (res_idx, res_i) ← find_item key ext_name res
    if is_undefined y res_i
        then insert_new modes res ext_i
        else patch_existing handler modes res res_idx res_i ext_i

  unfoldable pub patch_items :
      Handler → (Node → Outcome String) → List Node → List Node → Outcome (List Node)
  patch_items handler key res [] = ok res
  patch_items handler key res (e ∷ es) = do
    res' ← patch_item handler key res e
    patch_items handler key res' es

  unfoldable pub patch_list : Handler → String → Node → Node → Outcome Node
  patch_list handler id_key res ext =
      if is_undefined y ext
      then ok res
      else if is_undefined y res || not (is_sequence (kind ext))
      then ok ext
      else do
        overridden ← has_explicit_override_patch_mode (extract_custom_tag (tag ext))
        if overridden then ok ext else do
          fail_if (not (is_sequence (kind res))) assertion
          xs ← patch_items handler (get_key id_key) (items res) (items ext)
          ok (set_items res xs)

  -- one round of the first loop of `MergeListNode`
  unfoldable pub merge_item :
      Handler → (Node → Outcome String) → List Node → Node → Outcome (List Node)
  merge_item handler key res ext_i = do
    ext_name ← key ext_i
    (res_idx, res_i) ← find_item key ext_name res
    if is_undefined y res_i
        then ok (res ++ ext_i ∷ [])
        else (do r ← handler res_i ext_i; ok (set res res_idx r))

  unfoldable pub merge_items :
      Handler → (Node → Outcome String) → List Node → List Node → Outcome (List Node)
  merge_items handler key res [] = ok res
  merge_items handler key res (e ∷ es) = do
    res' ← merge_item handler key res e
    merge_items handler key res' es

  -- the search through `ext` in the second loop
  unfoldable pub is_listed : (Node → Outcome String) → String → List Node → Outcome Bool
  is_listed key name [] = ok false
  is_listed key name (e ∷ es) =
      let rest = is_listed key name es in do k ← key e; if str_eq k name then ok true else rest

  -- the second loop: `kept` is what stands before the index
  unfoldable pub remove_unlisted :
      (Node → Outcome String) → List Node → List Node → List Node → Outcome (List Node)
  remove_unlisted key ext kept [] = ok kept
  remove_unlisted key ext kept (r ∷ rs) = do
    name ← key r
    found ← is_listed key name ext
    remove_unlisted key ext (if found then kept ++ r ∷ [] else kept) rs

  unfoldable pub merge_list : Handler → String → Node → Node → Outcome Node
  merge_list handler id_key res ext =
      if is_undefined y ext
      then ok res
      else if is_undefined y res || not (is_sequence (kind ext))
      then ok ext
      else do
        fail_if (not (is_sequence (kind res))) assertion
        merged ← merge_items handler (field_key id_key) (items res) (items ext)
        xs ← remove_unlisted (field_key id_key) (items ext) [] merged
        ok (set_items res xs)

  -- the handler that the three-argument overloads pass
  unfoldable pub merge_map_handler : Handler
  merge_map_handler res ext = ok (merge_map y res ext)
