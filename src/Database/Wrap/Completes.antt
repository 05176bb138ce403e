-- ===== src/Database/Wrap/Completes.antt =====
-- Writing the wrap file comes to an end.
use mathlib.Core.List.{append_assoc, append-nil}
use aimrt_comm.Base.{
  ◌+◌, ◌≤◌, ◌<◌, ◌≡◌, refl, ap, ◌∙◌, true, some, List, [], ◌∷◌, ◌++◌, length, length-append, arith,
}
use aimrt_comm.Database.Bytes.{Bytes}
use aimrt_comm.Database.Wrap.{
  WrapBlob, WriteResult, write, write_fields, fields_of, Storage, returned, write_wrap,
}
use aimrt_comm.Database.Wrap.Writer.{progress, write_loop-progress}
use aimrt_comm.Database.Wrap.Layout.{IsSized, joined}
use aimrt_comm.Database.Wrap.Durable.{length-joined}

write-progress :
    (answers : List WriteResult) (left file : Bytes)
    → 0 < length left
    → length left ≤ progress answers
    → (rest : List WriteResult) × (write answers left file ≡ some (true, file ++ left, rest))
      × (progress answers ≤ progress rest + length left)
unfolding write
write-progress answers [] file some_left h = absurd (omega arith)
write-progress answers (b ∷ left) file some_left h = write_loop-progress answers (b ∷ left) file h

abbrev AllFilled : List Bytes → Type 0
AllFilled [] = Unit {0}
AllFilled (field ∷ fields) = (0 < length field) × AllFilled fields

write_fields-progress :
    (answers : List WriteResult) (fields : List Bytes) (file : Bytes)
    → AllFilled fields
    → length (joined fields) ≤ progress answers
    → (rest : List WriteResult) × (write_fields answers fields file
        ≡ some (true, file ++ joined fields, rest))
unfolding write_fields
write_fields-progress answers [] file filled h = (answers, rw append-nil refl)
write_fields-progress answers (field ∷ fields) file (some_left, filled) h =
    let (rest, done, more) =
      write-progress answers field file some_left
        (omega (arith, length-append field (joined fields))) in
    let (rest', done') =
      write_fields-progress rest fields (file ++ field) filled
        (omega (arith, length-append field (joined fields))) in
    (
      rest',
      rw (done, write_fields)
          (done' ∙ ap (λ l. some (true, l, rest')) (append_assoc file field (joined fields))),
    )

-- Where the file opens, syncs and takes its permissions, and the kernel takes a byte or more in a
-- hundred of its answers before it reports an error, with any number of signals between, `write_wrap`
-- returns true and the file has the fields of the blob, one after the other.
pub write_wrap-completes :
    (storage : Storage) (blob : WrapBlob) (old : Bytes)
    → IsSized blob
    → storage.opens ≡ true
    → storage.syncs ≡ true
    → storage.permits ≡ true
    → 100 ≤ progress storage.answers
    → write_wrap storage blob old ≡ returned true (joined (fields_of blob))
unfolding write_wrap
write_wrap-completes storage blob old sized opens syncs permits h =
    let filled : AllFilled (fields_of blob) = (
      omega arith,
      (omega arith, (omega arith, (omega arith, (omega arith, (omega arith, tt))))),
    ) in
    let (rest, done) =
      write_fields-progress storage.answers (fields_of blob) [] filled
        (omega (arith, length-joined blob sized)) in
    rw (opens, done, syncs, permits, write_wrap) refl
