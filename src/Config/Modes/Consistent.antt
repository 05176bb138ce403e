-- ===== src/Config/Modes/Consistent.antt =====
-- What `AnalyzePatchMode` guarantees of the modes that it returns.
use aimrt_comm.Base.{◌≡◌, refl, Bool, true, false, not, List, [], ◌∷◌, arith, Bool-cases, inl, inr}
use aimrt_comm.Base.Outcome.{Outcome, ok, fail, ◌>>=◌, >>=-eq-ok}
use aimrt_comm.Utils.Text.{Text, text_eq, split_trim}
use aimrt_comm.Config.Modes.{
  PatchMode, undefined_mode, default_mode, Word, delete_word, skip_word, merge_word, other_word,
  new_word, override_word, two_of, classify, add_word, add_words, finish_modes, analyze_patch_mode,
  new_flag, override_flag,
}

-- Of the ways to insert, and of the ways to override, one at most is chosen.
pub record OneEach (m : PatchMode) : Type 0 where
  pub one_new : two_of m.new_front m.new_back m.new_never ≡ false
  pub one_override : two_of m.override m.override_front m.override_back ≡ false

abbrev pub OneEachAfter : Outcome PatchMode → Type 0
OneEachAfter (ok m) = OneEach m
OneEachAfter (fail e) = Unit

new_flag-OneEach :
    (a b c : Bool) (m m' : PatchMode) → OneEach m → new_flag a b c m ≡ ok m' → OneEach m'
unfolding new_flag
new_flag-OneEach a b c m m' h e = ground arith

override_flag-OneEach :
    (a b c : Bool) (m m' : PatchMode) → OneEach m → override_flag a b c m ≡ ok m' → OneEach m'
unfolding override_flag
override_flag-OneEach a b c m m' h e = ground arith

add_word-OneEach : (w : Word) (m m' : PatchMode) → OneEach m → add_word w m ≡ ok m' → OneEach m'
unfolding add_word
add_word-OneEach (new_word o) m m' h e = new_flag-OneEach _ _ _ m m' h e
add_word-OneEach (override_word o) m m' h e = override_flag-OneEach _ _ _ m m' h e
add_word-OneEach delete_word m m' h e = ground arith
add_word-OneEach skip_word m m' h e = ground arith
add_word-OneEach merge_word m m' h e = ground arith
add_word-OneEach other_word m m' h e = cc

add_words-OneEach :
    (ws : List Text) (m m' : PatchMode) → OneEach m → add_words ws m ≡ ok m' → OneEach m'
unfolding add_words
add_words-OneEach [] m m' h e = ground arith
add_words-OneEach (w ∷ ws) m m' h e =
    let (n, first, rest) = >>=-eq-ok (add_word (classify w) m) (add_words ws) e in
    add_words-OneEach ws n m' (add_word-OneEach (classify w) m n h first) rest

finish_modes-OneEach :
    (m m' : PatchMode)
    → OneEach m
    → finish_modes m ≡ ok m'
    → OneEach m' × (two_of m'.delete m'.override m'.skip ≡ false) × (m'.explicit ≡ true)
unfolding finish_modes
finish_modes-OneEach m m' h e = ground arith

ok_eq : (a b : PatchMode) → ok a ≡ ok b → a ≡ b
ok_eq a b h = cc

-- The modes of a tag that is accepted: at most one way to insert and at most one way to override
-- is chosen, `delete`, `override` in place and `skip` exclude one another, and the mode is marked
-- explicit exactly if the tag is not empty.
pub analyze_patch_mode_consistent :
    (tag : Text) (m : PatchMode)
    → analyze_patch_mode tag ≡ ok m
    → OneEach m × (two_of m.delete m.override m.skip ≡ false) × (m.explicit ≡ not (text_eq tag []))
unfolding analyze_patch_mode
analyze_patch_mode_consistent tag m e = elim (Bool-cases (text_eq tag [])) [
  | inl empty ↦ rw empty (ground (arith, ok_eq default_mode m (rw empty at e)))
  | inr given ↦ rw given (accepted (rw given at e))
]
  where
    accepted :
        (add_words (split_trim tag b'+') undefined_mode >>= finish_modes) ≡ ok m
        → OneEach m × (two_of m.delete m.override m.skip ≡ false) × (m.explicit ≡ true)
    accepted e' =
        let (n, parsed, finished) =
          >>=-eq-ok (add_words (split_trim tag b'+') undefined_mode) finish_modes e' in
        finish_modes-OneEach n m
          (add_words-OneEach (split_trim tag b'+') undefined_mode n
            (record { one_new = refl; one_override = refl }) parsed)
          finished
