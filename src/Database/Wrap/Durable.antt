-- ===== src/Database/Wrap/Durable.antt =====
-- What `write_wrap` leaves on disk, and what `read_wrap` makes of it.
use mathlib.Core.Path.{subst}
use mathlib.Core.List.{append-nil}
use aimrt_comm.Base.{
  ℕ, ◌≡◌, refl, sym, ap, ◌∙◌, ◌⊎◌, inl, inr, Bool, true, false, not, Option, none, some, List, [],
  ◌∷◌, ◌++◌, length, length-append, if◌then◌else◌, Bool-cases, arith,
}
use aimrt_comm.Database.Bytes.{Bytes}
use aimrt_comm.Database.Wrap.{
  WrapBlob, WriteResult, write_fields, fields_of, Storage, Written, threw, returned, waits,
  write_wrap, read_wrap,
}
use aimrt_comm.Database.Wrap.Writer.{Appended}
use aimrt_comm.Database.Wrap.Layout.{
  IsSized, joined, write_fields-Appended, read_wrap-short, read_wrap-joined,
}

-- the end of `write_wrap` after the writes
abbrev ending : Storage → Option (Bool × Bytes × List WriteResult) → Written
ending storage none = waits
ending storage (some (result, file, left)) =
    if not result
    then returned false file
    else if not storage.syncs
    then returned false file
    else if not storage.permits
    then threw file
    else returned true file

-- the file is what the writes have put there, all of it after a success
record Leaves (blob : WrapBlob) (success : Bool) (out : Bytes) : Type 0 where
  pub result : Bool
  pub appended : Appended (joined (fields_of blob)) [] out result
  pub all : success ≡ true → result ≡ true

ending-same :
    (storage : Storage) (result success : Bool) (file out : Bytes) (left : List WriteResult)
    → ending storage (some (result, file, left)) ≡ returned success out
    → (file ≡ out) × (success ≡ true → result ≡ true)
ending-same storage false success file out left h = (cc, λ e. cc)
ending-same storage true success file out left h = (ground arith, λ e. refl)

write_wrap-Leaves :
    (storage : Storage) (blob : WrapBlob) (old out : Bytes) (success : Bool)
    → storage.opens ≡ true
    → write_wrap storage blob old ≡ returned success out
    → Leaves blob success out
unfolding write_wrap
write_wrap-Leaves storage blob old out success opens h =
    by_fields (write_fields storage.answers (fields_of blob) []) refl (by_open opens ∙ h)
  where
    by_open : {b : Bool} {x : Written} → b ≡ true → x ≡ (if not b then returned false old else x)
    by_open e = rw e refl

    by_fields :
        (w : Option (Bool × Bytes × List WriteResult))
        → write_fields storage.answers (fields_of blob) [] ≡ w
        → ending storage w ≡ returned success out
        → Leaves blob success out
    by_fields none e k = cc
    by_fields (some (result, file, left)) e k =
        let (same, all) = ending-same storage result success file out left k in
        record {
          result = result;
          appended =
              subst (λ o. Appended (joined (fields_of blob)) [] o result) same
                (write_fields-Appended storage.answers (fields_of blob) [] file left result e);
          all = all;
        }

pub length-joined : (blob : WrapBlob) → IsSized blob → length (joined (fields_of blob)) ≡ 100
length-joined blob sized = omega (
  arith,
  length-append {0},
  sized.magic_size,
  sized.salt_size,
  sized.iv_size,
  sized.tag_size,
  sized.ct_size,
  sized.noise_size,
)

Appended-all :
    {left out : Bytes} {result : Bool} → Appended left [] out result → result ≡ true → out ≡ left
Appended-all a e =
    a.file_is ∙ sym (append-nil a.written) ∙ ap (λ l. a.written ++ l) (sym (a.complete e)) ∙ a.whole

write_wrap-opens :
    (storage : Storage) (blob : WrapBlob) (old out : Bytes)
    → write_wrap storage blob old ≡ returned true out
    → storage.opens ≡ true
unfolding write_wrap
write_wrap-opens storage blob old out h = elim (Bool-cases storage.opens) [
  | inl e ↦ e
  | inr e ↦ let k = rw e at h in cc
]

-- A wrap file whose writing has succeeded is read back as it was.
pub write_wrap-read_wrap :
    (storage : Storage) (blob : WrapBlob) (old out : Bytes)
    → IsSized blob
    → write_wrap storage blob old ≡ returned true out
    → read_wrap out ≡ some blob
write_wrap-read_wrap storage blob old out sized h =
    let l =
      write_wrap-Leaves storage blob old out true (write_wrap-opens storage blob old out h) h in
    ap read_wrap (Appended-all l.appended (l.all refl)) ∙ read_wrap-joined blob sized

cut_or_all :
    (blob : WrapBlob) (out : Bytes)
    → IsSized blob
    → (written missing : Bytes) → written ++ missing ≡ joined (fields_of blob)
    → out ≡ written
    → (read_wrap out ≡ none) ⊎ (read_wrap out ≡ some blob)
cut_or_all blob out sized written [] whole same =
    inr (ap read_wrap (same ∙ sym (append-nil written) ∙ whole) ∙ read_wrap-joined blob sized)
cut_or_all blob out sized written (b ∷ missing) whole same = inl (
    read_wrap-short out (
      omega (
        arith,
        ap {B = ℕ} length whole,
        ap {B = ℕ} length same,
        length-append written (b ∷ missing),
        length-joined blob sized,
      )))

-- A wrap file whose writing has failed, after it was opened and so emptied, is refused or is read
-- back as a whole: a reader never gets mixed or partial fields.
pub write_wrap-cut :
    (storage : Storage) (blob : WrapBlob) (old out : Bytes) (result : Bool)
    → IsSized blob
    → storage.opens ≡ true
    → write_wrap storage blob old ≡ returned result out
    → (read_wrap out ≡ none) ⊎ (read_wrap out ≡ some blob)
write_wrap-cut storage blob old out result sized opens h =
    let l = write_wrap-Leaves storage blob old out result opens h in
    cut_or_all blob out sized l.appended.written l.appended.missing l.appended.whole
      l.appended.file_is
