-- ===== src/Database/Encrypted/Kept.antt =====
-- What `encrypt_db` leaves, and whether `decrypt_db` opens it.
use aimrt_comm.Base.{◌≡◌, Bool, true, false, Option, none, some}
use aimrt_comm.Database.Bytes.{Bytes}
use aimrt_comm.Database.Encrypted.{Cipher, Disk, Ended, stuck, thrown, ended}

-- a database that was made under a key is verified under that key
pub record Unlocks {File : Type 0} (cipher : Cipher File) : Type 0 where
  pub verified-created : (mk : Bytes) → cipher.verified mk (some (cipher.created mk)) ≡ true
  pub verified-exported :
      (file : File) (mk : Bytes) → cipher.verified mk (some (cipher.exported file mk)) ≡ true

-- an encrypted copy is not plain, and opens under its own key only
pub record Locks {File : Type 0} (cipher : Cipher File) : Type 0 where
  pub is_plain-exported :
      (file : File) (mk : Bytes) → cipher.is_plain (cipher.exported file mk) ≡ false
  pub verified-exported-key :
      (file : File) (mk other : Bytes)
      → cipher.verified other (some (cipher.exported file mk)) ≡ true
      → other ≡ mk

-- the disk that a run leaves, unless it never ends
abbrev pub left_by : {File : Type 0} → Ended File → Option (Disk File)
left_by stuck = none
left_by (thrown disk) = some disk
left_by (ended result disk) = some disk

-- The content of a database can still be read: under its path without a key, or encrypted under its
-- path or that of the temporary file, then with the key that the wrap file gives.
pub data Keeps {File : Type 0} (cipher : Cipher File) (file : File) (key : Bool × Bytes)
    (disk : Disk File) : Type 0 where
  plain : disk.db ≡ some file → cipher.is_plain file ≡ true → Keeps cipher file key disk
  encrypted :
      (mk : Bytes)
      → key ≡ (true, mk)
      → disk.db ≡ some (cipher.exported file mk)
      → Keeps cipher file key disk
  aside :
      (mk : Bytes)
      → key ≡ (true, mk)
      → disk.db ≡ none
      → disk.temp ≡ some (cipher.exported file mk)
      → Keeps cipher file key disk
