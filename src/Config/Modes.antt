-- ===== src/Config/Modes.antt =====
-- `Cfg::Processor::PatchMode`, `AnalyzePatchMode`, `HasExplicitOverridePatchMode` and
-- `ExtractCustomTag` (src/module/cfg_processor.{h,cpp}). The `uint32_t` of flags is the record of
-- its ten bits: `modes |= F` sets a field and `modes & F` reads it.
pub mod Consistent
pub mod Order
use aimrt_comm.Base.{
  ℕ, suc, String, Bool, true, false, not, ◌&&◌, ◌||◌, Option, none, some, List, [], ◌∷◌,
  if◌then◌else◌,
}
use aimrt_comm.Base.Outcome.{
  Outcome, ok, fail, multiple_define, unsupported_mode, exclusive_modes, fail_if, ◌>>=◌, ◌>>◌,
}
use aimrt_comm.Utils.Text.{Text, codes, text_eq, strip_prefix, split_trim}

pub record PatchMode : Type 0 where
  pub override : Bool
  pub override_front : Bool
  pub override_back : Bool
  pub skip : Bool
  pub new_front : Bool
  pub new_back : Bool
  pub new_never : Bool
  pub delete : Bool
  pub explicit : Bool
  pub merge : Bool

abbrev pub undefined_mode : PatchMode
undefined_mode = record {
  override = false;
  override_front = false;
  override_back = false;
  skip = false;
  new_front = false;
  new_back = false;
  new_never = false;
  delete = false;
  explicit = false;
  merge = false;
}

abbrev pub default_mode : PatchMode
default_mode = record undefined_mode { override = true }

-- `tag:yaml.org,2002:`
abbrev tag_prefix : Text
tag_prefix = codes "tag:yaml.org,2002:"

unfoldable pub extract_custom_tag : String → Text
unfolding strip_prefix
extract_custom_tag tag = elim (strip_prefix tag_prefix (codes tag)) [ none ↦ [] | some rest ↦ rest ]

-- the branch of `word.starts_with("new")`, on the tests of what follows
unfoldable pub new_flag : Bool → Bool → Bool → PatchMode → Outcome PatchMode
new_flag front back never m = do
  fail_if m.new_front multiple_define
  fail_if m.new_back multiple_define
  fail_if m.new_never multiple_define
  if front
      then ok (record m { new_front = true })
      else if back
      then ok (record m { new_back = true })
      else if never
      then ok (record m { new_never = true })
      else fail unsupported_mode

-- the branch of `word.starts_with("override")`
unfoldable pub override_flag : Bool → Bool → Bool → PatchMode → Outcome PatchMode
override_flag bare front back m = do
  fail_if m.override multiple_define
  fail_if m.override_front multiple_define
  fail_if m.override_back multiple_define
  if bare
      then ok (record m { override = true })
      else if front
      then ok (record m { override_front = true })
      else if back
      then ok (record m { override_back = true })
      else fail unsupported_mode

-- the branch of `word.starts_with("merge")`, which does not look at what follows
unfoldable pub add_merge : PatchMode → Outcome PatchMode
add_merge m = do fail_if m.merge multiple_define; ok (record m { merge = true })

-- what a word is, in the order of the tests
pub data Word : Type 0 where
  delete_word skip_word merge_word other_word : Word
  new_word override_word : Text → Word

unfoldable pub classify : Text → Word
unfolding text_eq strip_prefix
classify word =
    if text_eq word (codes "delete")
    then delete_word
    else if text_eq word (codes "skip")
    then skip_word
    else elim (strip_prefix (codes "new") word) [
      | some option ↦ new_word option
      | none ↦ elim (strip_prefix (codes "override") word) [
        | some option ↦ override_word option
        | none ↦ elim (strip_prefix (codes "merge") word) [
          | some _ ↦ merge_word
          | none ↦ other_word
        ]
      ]
    ]

unfoldable pub add_word : Word → PatchMode → Outcome PatchMode
unfolding add_merge
add_word delete_word m = do fail_if m.delete multiple_define; ok (record m { delete = true })
add_word skip_word m = do fail_if m.skip multiple_define; ok (record m { skip = true })
add_word (new_word option) m =
    new_flag (text_eq option [] || text_eq option (codes ".front")) (text_eq option (codes ".back"))
      (text_eq option (codes ".never")) m
add_word (override_word option) m =
    override_flag (text_eq option []) (text_eq option (codes ".front"))
      (text_eq option (codes ".back")) m
add_word merge_word m = add_merge m
add_word other_word m = fail unsupported_mode

-- the loop over `mode_words`
unfoldable pub add_words : List Text → PatchMode → Outcome PatchMode
add_words [] m = ok m
add_words (w ∷ ws) m = add_word (classify w) m >>= add_words ws

-- `modes == PatchMode::NewNever`
abbrev pub is_only_new_never : PatchMode → Bool
is_only_new_never m =
    m.new_never
    && not (
        m.override || m.override_front || m.override_back || m.skip || m.new_front || m.new_back
        || m.delete || m.explicit || m.merge)

-- `(modes & Delete) + (modes & Override) + (modes & Skip) > 1`
abbrev pub two_of : Bool → Bool → Bool → Bool
two_of a b c = (a && b) || (a && c) || (b && c)

-- what stands after the loop
unfoldable pub finish_modes : PatchMode → Outcome PatchMode
finish_modes m =
    let m' = if is_only_new_never m then record m { override = true } else m in
    do
      fail_if (two_of m'.delete m'.override m'.skip) exclusive_modes
      ok (record m' { explicit = true })

unfoldable pub analyze_patch_mode : Text → Outcome PatchMode
analyze_patch_mode tag =
    if text_eq tag []
    then ok default_mode
    else (do m ← add_words (split_trim tag b'+') undefined_mode; finish_modes m)

unfoldable pub has_explicit_override_patch_mode : Text → Outcome Bool
unfolding text_eq
has_explicit_override_patch_mode tag =
    if text_eq tag []
    then ok false
    else if text_eq tag (codes "override")
    then ok true
    else fail unsupported_mode
