-- ===== src/Database/MasterKey.antt =====
-- The master key (src/database/security.cpp): `hkdf_devk`, the two AES-GCM routines, `encrypt_mk` and
-- `decrypt_mk`.
pub mod Wrapping
pub mod RoundTrip
use aimrt_comm.Base.{
  ℕ, zero, suc, Bool, true, false, not, ◌==◌, Option, none, some, List, [], ◌∷◌, length,
  if◌then◌else◌,
}
use aimrt_comm.Base.Fallible.{◌>>=◌}
use aimrt_comm.Utils.Text.{codes}
use aimrt_comm.Database.Bytes.{Bytes}
use aimrt_comm.Database.Device.{Platform, Files, make_devid, make_shift_salt}
use aimrt_comm.Database.Wrap.{
  WrapBlob, magic_bytes, Storage, Written, threw, returned, waits, write_wrap, read_wrap,
}

abbrev pub pepper : Bytes
pepper = codes "agibot-pepper-v1-sqlcipher"

unfoldable pub hkdf_devk : Platform → Bytes → Bytes → Bytes → Option Bytes
hkdf_devk platform devid salt disturbance =
    elim (platform.hkdf salt devid (pepper ∷ disturbance ∷ [])) [
      | none ↦ none
      | some devk ↦ if length devk == 32 then some devk else none
    ]

-- the cipher text and the tag, with the vector that `RAND_bytes` gave
unfoldable pub aes_gcm_encrypt :
    Platform → Bytes → Bytes → Option Bytes → Option (Bytes × Bytes × Bytes)
aes_gcm_encrypt platform key pt random_iv = if not (length pt == 32) then none else elim random_iv [
  | none ↦ none
  | some iv ↦ elim (platform.seal key iv pt) [
    | none ↦ none
    | some (ct, tag) ↦ if not (length ct == length pt) then none else some (iv, tag, ct)
  ]
]

unfoldable pub aes_gcm_decrypt : Platform → Bytes → Bytes → Bytes → Bytes → Option Bytes
aes_gcm_decrypt platform key ct iv tag =
    if not (length ct == 32) then none else elim (platform.unseal key iv ct tag) [
      | none ↦ none
      | some pt ↦ if length pt == length ct then some pt else none
    ]

-- what a call of `encrypt_mk` finds: the clock, the process id, the three results of `RAND_bytes`,
-- `none` for one that failed, and the file system
pub record Moment : Type 0 where
  pub time : ℕ
  pub pid : ℕ
  pub random_mk : Option Bytes
  pub random_salt : Option Bytes
  pub random_iv : Option Bytes
  pub storage : Storage

abbrev pub zeros : ℕ → Bytes
zeros zero = []
zeros (suc n) = 0 ∷ zeros n

-- the blob that `encrypt_mk` writes, with the key in it, `none` where a step before fails
unfoldable pub wrapped_key : Platform → Files → Moment → Option (Bytes × WrapBlob)
wrapped_key platform files moment = do
  devid ← make_devid platform files
  mk ← moment.random_mk
  salt ← moment.random_salt
  let shift = make_shift_salt platform files moment.time moment.pid (zeros 16)
  devk ← hkdf_devk platform devid salt shift.0
  sealed ← aes_gcm_encrypt platform devk mk moment.random_iv
  some (
    mk,
    record {
      magic = magic_bytes;
      salt = salt;
      iv = sealed.0;
      tag = sealed.1;
      ct = sealed.2;
      noise = shift.1;
    },
  )

-- the key is handed out only when the file has been written
abbrev pub hand_out : Bytes → Bytes → Written → Written × Bytes
hand_out mk out_mk waits = (waits, out_mk)
hand_out mk out_mk (threw file) = (threw file, out_mk)
hand_out mk out_mk (returned false file) = (returned false file, out_mk)
hand_out mk out_mk (returned true file) = (returned true file, mk)

abbrev pub store_key : Storage → Bytes → Bytes → Option (Bytes × WrapBlob) → Written × Bytes
store_key storage old out_mk none = (returned false old, out_mk)
store_key storage old out_mk (some (mk, blob)) = hand_out mk out_mk (write_wrap storage blob old)

-- `encrypt_mk` on the wrap file and `out_mk`: how it ends, with the file and `out_mk` after it
unfoldable pub encrypt_mk : Platform → Files → Moment → Bytes → Bytes → Written × Bytes
encrypt_mk platform files moment old out_mk =
    store_key moment.storage old out_mk (wrapped_key platform files moment)

-- the key from the wrap file, `none` where the file does not open; `none` for a failure before the
-- decryption, which is the last step
unfoldable pub unwrapped_key : Platform → Files → ℕ → ℕ → Option Bytes → Option (Option Bytes)
unwrapped_key platform files time pid file = do
  devid ← make_devid platform files
  blob ← file >>= read_wrap
  devk ← hkdf_devk platform devid blob.salt (make_shift_salt platform files time pid blob.noise).0
  some (aes_gcm_decrypt platform devk blob.ct blob.iv blob.tag)

-- a failed decryption clears `out_mk`, any other failure leaves it
abbrev pub key_result : Bytes → Option (Option Bytes) → Bool × Bytes
key_result out_mk none = (false, out_mk)
key_result out_mk (some none) = (false, [])
key_result out_mk (some (some mk)) = (true, mk)

-- `decrypt_mk` at a clock and a process id: the result and `out_mk` after it
unfoldable pub decrypt_mk : Platform → Files → ℕ → ℕ → Option Bytes → Bytes → Bool × Bytes
decrypt_mk platform files time pid file out_mk =
    key_result out_mk (unwrapped_key platform files time pid file)
