-- ===== src/Database/Encrypted.antt =====
-- `encrypt_db` and `decrypt_db` (src/database/security.cpp), over the files that they work on.
pub mod Kept
use aimrt_comm.Base.{ℕ, Bool, true, false, not, ◌&&◌, Option, none, some, List, [], if◌then◌else◌}
use aimrt_comm.Database.Bytes.{Bytes}
use aimrt_comm.Database.Device.{Platform, Files}
use aimrt_comm.Database.Wrap.{Written, threw, returned, waits}
use aimrt_comm.Database.MasterKey.{Moment, encrypt_mk, decrypt_mk}

-- SQLCipher on database files: a new one with a key and the table `_encryption`; whether a file can
-- be read without a key; the encrypted copy that `sqlcipher_export` makes under a key; and what
-- `verify_db` finds under a key in the file of a path, if there is one
pub record Cipher (File : Type 0) : Type 0 where
  pub created : Bytes → File
  pub is_plain : File → Bool
  pub exported : File → Bytes → File
  pub verified : Bytes → Option File → Bool

-- whether the calls succeed, by their order; "SELECT 1;" does not read the file, so its answer does
-- not depend on it
pub record Answers : Type 0 where
  pub opened : Bool
  pub selected : Bool
  pub attached : Bool
  pub keyed : Bool
  pub executed : Bool
  pub removed : Bool
  pub renamed : Bool

-- the wrap file, which is empty where it is absent; the database; and the temporary file with ".enc"
pub record Disk (File : Type 0) : Type 0 where
  pub wrap : Bytes
  pub db : Option File
  pub temp : Option File

pub data Ended (File : Type 0) : Type 0 where
  stuck : Ended File
  thrown : Disk File → Ended File
  ended : Bool → Disk File → Ended File

module _ {File : Type 0} (cipher : Cipher File) where
  -- the branch of a database that is absent; the file appears with its table
  abbrev pub create_db : Answers → Bytes → Disk File → Ended File
  create_db answers mk disk =
      if not answers.opened
      then ended false disk
      else if not answers.keyed
      then ended false disk
      else if not answers.executed
      then ended false disk
      else ended true (record disk { db = some (cipher.created mk) })

  -- the branch of a database that is there; ATTACH reads it; a failed DETACH is only logged
  abbrev pub convert_db : Answers → Bytes → Disk File → File → Ended File
  convert_db answers mk disk file =
      if not answers.opened
      then ended false disk
      else if not answers.selected
      then ended true disk
      else if not (cipher.is_plain file && answers.attached)
      then ended false disk
      else if not answers.keyed
      then ended false disk
      else if not answers.executed
      then ended false disk
      else if not answers.removed
      then ended false (record disk { temp = some (cipher.exported file mk) })
      else if not answers.renamed
      then ended false (record disk { db = none; temp = some (cipher.exported file mk) })
      else ended true (record disk { db = some (cipher.exported file mk); temp = none })

  abbrev pub encrypt_file : Answers → Bytes → Disk File → Option File → Ended File
  encrypt_file answers mk disk none = create_db answers mk disk
  encrypt_file answers mk disk (some file) = convert_db answers mk disk file

  -- what follows on `encrypt_mk`
  abbrev pub after_mk : Answers → Disk File → Written × Bytes → Ended File
  after_mk answers disk (waits, mk) = stuck
  after_mk answers disk (threw wrap, mk) = thrown (record disk { wrap = wrap })
  after_mk answers disk (returned false wrap, mk) = ended false (record disk { wrap = wrap })
  after_mk answers disk (returned true wrap, mk) =
      encrypt_file answers mk (record disk { wrap = wrap }) disk.db

  unfoldable pub encrypt_db : Platform → Files → Moment → Answers → Disk File → Ended File
  encrypt_db platform files moment answers disk =
      after_mk answers disk (encrypt_mk platform files moment disk.wrap [])

-- `*pdb` after `decrypt_db`: untouched, what a failed `sqlite3_open` has left, closed and null, or open
pub data Connection : Type 0 where
  untouched failed_open null open_db : Connection

module _ {File : Type 0} (cipher : Cipher File) where
  abbrev pub open_with : Answers → Disk File → Bool × Bytes → Bool × Connection
  open_with answers disk (false, mk) = (false, untouched)
  open_with answers disk (true, mk) =
      if not answers.opened
      then (false, failed_open)
      else if not answers.keyed
      then (false, null)
      else if not (cipher.verified mk disk.db)
      then (false, null)
      else (true, open_db)

  -- with `pdb` not null
  unfoldable pub decrypt_db : Platform → Files → ℕ → ℕ → Answers → Disk File → Bool × Connection
  decrypt_db platform files time pid answers disk =
      open_with answers disk (decrypt_mk platform files time pid (some disk.wrap) [])
