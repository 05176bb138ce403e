-- ===== src/Config/Modes/Order.antt =====
-- The order of the words of a tag does not matter.
use aimrt_comm.Base.{◌≡◌, sym, ap, ◌∙◌, Bool, true, false, ◌||◌, List, [], if◌then◌else◌, arith}
use mathlib.Core.List.{Permᴰ}
use aimrt_comm.Base.Outcome.{ok, ◌>>=◌, >>=-eq-ok}
use aimrt_comm.Utils.Text.{Text, codes, text_eq}
use aimrt_comm.Config.Modes.{
  PatchMode, Word, delete_word, skip_word, merge_word, other_word, new_word, override_word,
  classify, add_word, add_words, new_flag, override_flag,
}

-- the flag that a word asks for
data Mark : Type 0 where
  delete skip merge new_front new_back new_never : Mark
  override override_front override_back : Mark
  unknown : Mark

-- whether a flag of the mark's group stands already
abbrev taken : Mark → PatchMode → Bool
taken delete m = m.delete
taken skip m = m.skip
taken merge m = m.merge
taken new_front m = m.new_front || m.new_back || m.new_never
taken new_back m = m.new_front || m.new_back || m.new_never
taken new_never m = m.new_front || m.new_back || m.new_never
taken override m = m.override || m.override_front || m.override_back
taken override_front m = m.override || m.override_front || m.override_back
taken override_back m = m.override || m.override_front || m.override_back
taken unknown m = true

abbrev put : Mark → PatchMode → PatchMode
put delete m = record m { delete = true }
put skip m = record m { skip = true }
put merge m = record m { merge = true }
put new_front m = record m { new_front = true }
put new_back m = record m { new_back = true }
put new_never m = record m { new_never = true }
put override m = record m { override = true }
put override_front m = record m { override_front = true }
put override_back m = record m { override_back = true }
put unknown m = m

mark_new : Bool → Bool → Bool → Mark
mark_new front back never =
    if front then new_front else if back then new_back else if never then new_never else unknown

mark_override : Bool → Bool → Bool → Mark
mark_override bare front back =
    if bare
    then override
    else if front
    then override_front
    else if back
    then override_back
    else unknown

mark : Word → Mark
mark delete_word = delete
mark skip_word = skip
mark merge_word = merge
mark other_word = unknown
mark (new_word o) =
    mark_new (text_eq o [] || text_eq o (codes ".front")) (text_eq o (codes ".back"))
      (text_eq o (codes ".never"))
mark (override_word o) =
    mark_override (text_eq o []) (text_eq o (codes ".front")) (text_eq o (codes ".back"))

new_flag-put :
    (a b c : Bool) (m r : PatchMode)
    → new_flag a b c m ≡ ok r
    → (taken (mark_new a b c) m ≡ false) × (r ≡ put (mark_new a b c) m)
unfolding new_flag mark_new
new_flag-put a b c m r e = ground arith

override_flag-put :
    (a b c : Bool) (m r : PatchMode)
    → override_flag a b c m ≡ ok r
    → (taken (mark_override a b c) m ≡ false) × (r ≡ put (mark_override a b c) m)
unfolding override_flag mark_override
override_flag-put a b c m r e = ground arith

put-new_flag :
    (a b c : Bool) (m : PatchMode)
    → taken (mark_new a b c) m ≡ false
    → new_flag a b c m ≡ ok (put (mark_new a b c) m)
unfolding new_flag mark_new
put-new_flag a b c m e = ground arith

put-override_flag :
    (a b c : Bool) (m : PatchMode)
    → taken (mark_override a b c) m ≡ false
    → override_flag a b c m ≡ ok (put (mark_override a b c) m)
unfolding override_flag mark_override
put-override_flag a b c m e = ground arith

-- A word is accepted exactly if it is known and its group is free, and then sets its flag.
add_word-eq-put :
    (w : Word) (m r : PatchMode)
    → add_word w m ≡ ok r
    → (taken (mark w) m ≡ false) × (r ≡ put (mark w) m)
unfolding add_word mark
add_word-eq-put delete_word m r e = ground arith
add_word-eq-put skip_word m r e = ground arith
add_word-eq-put merge_word m r e = ground arith
add_word-eq-put other_word m r e = cc
add_word-eq-put (new_word o) m r e = new_flag-put _ _ _ m r e
add_word-eq-put (override_word o) m r e = override_flag-put _ _ _ m r e

put-add_word :
    (w : Word) (m : PatchMode) → taken (mark w) m ≡ false → add_word w m ≡ ok (put (mark w) m)
unfolding add_word mark
put-add_word delete_word m e = ground arith
put-add_word skip_word m e = ground arith
put-add_word merge_word m e = ground arith
put-add_word other_word m e = cc
put-add_word (new_word o) m e = put-new_flag _ _ _ m e
put-add_word (override_word o) m e = put-override_flag _ _ _ m e

taken_swap :
    (a b : Mark) (m : PatchMode)
    → taken a m ≡ false
    → taken b (put a m) ≡ false
    → (taken b m ≡ false) × (taken a (put b m) ≡ false)
taken_swap delete b m h k = ground arith
taken_swap _ b m h k = ground arith

put_swap : (a b : Mark) (m : PatchMode) → put b (put a m) ≡ put a (put b m)
put_swap delete b m = ground arith
put_swap _ b m = ground arith

add_word_swap :
    (v w : Word) (m r : PatchMode)
    → (add_word v m >>= add_word w) ≡ ok r
    → (add_word w m >>= add_word v) ≡ ok r
add_word_swap v w m r e =
    let (n, first, second) = >>=-eq-ok (add_word v m) (add_word w) e in
    let (free_v, n_put) = add_word-eq-put v m n first in
    let (free_w, r_put) = add_word-eq-put w n r second in
    let (w_first, v_second) = taken_swap (mark v) (mark w) m free_v (rw n_put at free_w) in
    rw (put-add_word w m w_first) (
      put-add_word v (put (mark w) m) v_second
      ∙ ap ok (put_swap (mark w) (mark v) m ∙ sym (rw n_put at r_put)))

-- Words that are accepted in one order are accepted in every other, with the same modes.
pub add_words_perm :
    (vs ws : List Text) (m r : PatchMode)
    → Permᴰ vs ws
    → add_words vs m ≡ ok r
    → add_words ws m ≡ ok r
unfolding add_words
add_words_perm _ _ m r Permᴰ.nil e = e
add_words_perm _ _ m r (Permᴰ.cons {a = a} {b = b} {l₁ = vs} {l₂ = ws} p perm) e =
    let (n, first, rest) = >>=-eq-ok (add_word (classify a) m) (add_words vs) e in
    rw (← p, first) (add_words_perm vs ws n r perm rest)
add_words_perm _ _ m r (Permᴰ.swap {a = a} {b = b} {a' = c} {b' = d} {l = l} p q) e =
    let (n, first, rest) =
      >>=-eq-ok (add_word (classify a) m) (λ k. add_word (classify b) k >>= add_words l) e in
    let (n', second, rest') = >>=-eq-ok (add_word (classify b) n) (add_words l) rest in
    let both : (add_word (classify a) m >>= add_word (classify b)) ≡ ok n' = rw first second in
    let swapped = add_word_swap (classify a) (classify b) m n' both in
    let (k, one, two) = >>=-eq-ok (add_word (classify b) m) (add_word (classify a)) swapped in
    rw (← p, ← q, one, two) rest'
add_words_perm vs ws m r (Permᴰ.trans {l₂ = us} p q) e =
    add_words_perm us ws m r q (add_words_perm vs us m r p e)
