-- ===== src/Database/Wrap.antt =====
-- The file that keeps the master key (src/database/security.{h,cpp}): its layout, the writer that
-- survives partial writes, and the reader.
pub mod Writer
pub mod Layout
pub mod Durable
pub mod Completes
use aimrt_comm.Base.{
  ℕ, Bool, true, false, ◌==◌, ◌&&◌, not, Option, none, some, List, [], ◌∷◌, ◌++◌, length,
  if◌then◌else◌,
}
use aimrt_comm.Utils.Text.{codes, text_eq}
use aimrt_comm.Database.Bytes.{Bytes, take, drop, read_exactly}

pub record WrapBlob : Type 0 where
  pub magic : Bytes
  pub salt : Bytes
  pub iv : Bytes
  pub tag : Bytes
  pub ct : Bytes
  pub noise : Bytes

abbrev pub magic_bytes : Bytes
magic_bytes = codes "AGI-WRAP"

-- `blob.is_valid()`
unfoldable pub is_valid : Bytes → Bool
unfolding text_eq
is_valid magic = text_eq magic magic_bytes

-- what one call of `::write` returns: how many bytes were taken, of those that it was given; that a
-- signal came; or an error
pub data WriteResult : Type 0 where
  wrote : ℕ → WriteResult
  interrupted failed : WriteResult

-- The loop of `SecureFileWriter::write` over the kernel's answers, on what is left to write and what
-- the file has: the result, the file and the answers left; `none` while no answer has come.
unfoldable pub write_loop :
    List WriteResult → Bytes → Bytes → Option (Bool × Bytes × List WriteResult)
write_loop answers [] file = some (true, file, answers)
write_loop [] (b ∷ left) file = none
write_loop (wrote n ∷ answers) (b ∷ left) file =
    write_loop answers (drop n (b ∷ left)) (file ++ take n (b ∷ left))
write_loop (interrupted ∷ answers) (b ∷ left) file = write_loop answers (b ∷ left) file
write_loop (failed ∷ answers) (b ∷ left) file = some (false, file, answers)

-- `SecureFileWriter::write` on an open file, which refuses to write nothing
unfoldable pub write : List WriteResult → Bytes → Bytes → Option (Bool × Bytes × List WriteResult)
unfolding write_loop
write answers [] file = some (false, file, answers)
write answers (b ∷ left) file = write_loop answers (b ∷ left) file

-- the writes of `write_wrap`, each one only if those before have succeeded
unfoldable pub write_fields :
    List WriteResult → List Bytes → Bytes → Option (Bool × Bytes × List WriteResult)
unfolding write
write_fields answers [] file = some (true, file, answers)
write_fields answers (field ∷ fields) file = elim (write answers field file) [
  | none ↦ none
  | some (result, file', answers') ↦ elim result [
    | true ↦ write_fields answers' fields file'
    | false ↦ some (false, file', answers')
  ]
]

abbrev pub fields_of : WrapBlob → List Bytes
fields_of blob = blob.magic ∷ blob.salt ∷ blob.iv ∷ blob.tag ∷ blob.ct ∷ blob.noise ∷ []

-- what the system does with the file: whether it opens and syncs, whether the permissions are set
-- (else `fs::permissions` throws), and its answers to `::write`
pub record Storage : Type 0 where
  pub opens : Bool
  pub syncs : Bool
  pub permits : Bool
  pub answers : List WriteResult

-- how `write_wrap` ends, with the file that it leaves
pub data Written : Type 0 where
  waits : Written
  threw : Bytes → Written
  returned : Bool → Bytes → Written

unfoldable pub write_wrap : Storage → WrapBlob → Bytes → Written
unfolding write_fields
write_wrap storage blob old =
    if not storage.opens
    then returned false old
    else elim (write_fields storage.answers (fields_of blob) []) [
      | none ↦ waits
      | some (result, file, left) ↦
          if not result
          then returned false file
          else if not storage.syncs
          then returned false file
          else if not storage.permits
          then threw file
          else returned true file
    ]

-- one field of a fixed size, and what follows it
abbrev pub next_field : ℕ → Bytes → (Bytes → Bytes → Option WrapBlob) → Option WrapBlob
next_field size file next = elim (read_exactly size file) [
  | none ↦ none
  | some (field, rest) ↦ next field rest
]

-- `read_wrap` on the bytes of a file that opens; `none` is a result of false
unfoldable pub read_wrap : Bytes → Option WrapBlob
unfolding read_exactly is_valid
read_wrap file = next_field 8 file λ magic file1.
    if not (is_valid magic)
    then none
    else next_field 16 file1 λ salt file2. next_field 12 file2 λ iv file3.
      next_field 16 file3 λ tag file4. next_field 32 file4 λ ct file5.
        next_field 16 file5 λ noise file6.
          some (record { magic = magic; salt = salt; iv = iv; tag = tag; ct = ct; noise = noise })
