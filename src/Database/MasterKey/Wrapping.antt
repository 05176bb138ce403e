-- ===== src/Database/MasterKey/Wrapping.antt =====
-- What the wrap file of a key is made of.
use mathlib.Core.Path.{subst}
use aimrt_comm.Base.{ℕ, ◌≡◌, refl, Option, some, length, arith}
use aimrt_comm.Base.Fallible.{passed}
use aimrt_comm.Database.Bytes.{Bytes}
use aimrt_comm.Database.Device.{Platform, Files, make_devid, make_shift_salt}
use aimrt_comm.Database.Wrap.{WrapBlob, is_valid, magic_bytes}
use aimrt_comm.Database.Wrap.Layout.{IsSized}
use aimrt_comm.Database.MasterKey.{
  hkdf_devk, aes_gcm_encrypt, aes_gcm_decrypt, Moment, zeros, wrapped_key,
}

-- AES-GCM: what was sealed is unsealed with the same key, vector and tag, and a tag has 16 bytes
pub record IsAead (platform : Platform) : Type 0 where
  pub unseal-seal :
      (key iv pt ct tag : Bytes)
      → platform.seal key iv pt ≡ some (ct, tag)
      → platform.unseal key iv ct tag ≡ some pt
  pub tag_size :
      (key iv pt ct tag : Bytes) → platform.seal key iv pt ≡ some (ct, tag) → length tag ≡ 16

-- `RAND_bytes` fills the buffer that it was given
pub record Fills (moment : Moment) : Type 0 where
  pub salt_size : (salt : Bytes) → moment.random_salt ≡ some salt → length salt ≡ 16
  pub iv_size : (iv : Bytes) → moment.random_iv ≡ some iv → length iv ≡ 12

-- a successful encryption, taken apart
pub record Encrypted (platform : Platform) (key pt iv tag ct : Bytes) (random_iv : Option Bytes)
    : Type 0 where
  pub random : random_iv ≡ some iv
  pub pt_size : length pt ≡ 32
  pub ct_size : length ct ≡ 32
  pub sealed : platform.seal key iv pt ≡ some (ct, tag)

aes_gcm_encrypt-Encrypted :
    (platform : Platform) (key pt iv tag ct : Bytes) (random_iv : Option Bytes)
    → aes_gcm_encrypt platform key pt random_iv ≡ some (iv, tag, ct)
    → Encrypted platform key pt iv tag ct random_iv
unfolding aes_gcm_encrypt
aes_gcm_encrypt-Encrypted platform key pt iv tag ct random_iv h = record {
  random = ground arith;
  pt_size = ground arith;
  ct_size = ground arith;
  sealed = ground arith;
}

pub aes_gcm_decrypt-encrypt :
    {platform : Platform} {key pt iv tag ct : Bytes} {random_iv : Option Bytes}
    → IsAead platform
    → Encrypted platform key pt iv tag ct random_iv
    → aes_gcm_decrypt platform key ct iv tag ≡ some pt
unfolding aes_gcm_decrypt
aes_gcm_decrypt-encrypt {platform} {key} {pt} {iv} {tag} {ct} aead e =
    let opened = aead.unseal-seal key iv pt ct tag e.sealed in ground arith

shift_noise :
    (platform : Platform) (files : Files) (time pid : ℕ)
    → (make_shift_salt platform files time pid (zeros 16)).1 ≡ zeros 16
unfolding make_shift_salt
shift_noise platform files time pid = refl

pub shift_same :
    (platform : Platform) (files : Files) (time pid time' pid' : ℕ)
    → make_shift_salt platform files time pid (zeros 16)
      ≡ make_shift_salt platform files time' pid' (zeros 16)
unfolding make_shift_salt
shift_same platform files time pid time' pid' = refl

-- what `encrypt_mk` has computed for the blob
pub record Wrapped (platform : Platform) (files : Files) (moment : Moment) (mk : Bytes)
    (blob : WrapBlob) : Type 0 where
  pub devid : Bytes
  pub devk : Bytes
  pub devid_is : make_devid platform files ≡ some devid
  pub salt_is : moment.random_salt ≡ some blob.salt
  pub devk_is :
      hkdf_devk platform devid blob.salt
        (make_shift_salt platform files moment.time moment.pid (zeros 16)).0
      ≡ some devk
  pub encrypted : Encrypted platform devk mk blob.iv blob.tag blob.ct moment.random_iv
  pub magic_is : blob.magic ≡ magic_bytes
  pub noise_is : blob.noise ≡ zeros 16

pub some_same {ℓ} : {A : Type ℓ} {x y : A} → some x ≡ some y → x ≡ y
some_same h = cc

pub wrapped_key-Wrapped :
    (platform : Platform) (files : Files) (moment : Moment) (mk : Bytes) (blob : WrapBlob)
    → wrapped_key platform files moment ≡ some (mk, blob)
    → Wrapped platform files moment mk blob
unfolding wrapped_key
wrapped_key-Wrapped platform files moment mk blob h =
    let (devid, devid_is, h1) = passed (make_devid platform files) _ h in
    let (mk', mk_is, h2) = passed moment.random_mk _ h1 in
    let (salt, salt_is, h3) = passed moment.random_salt _ h2 in
    let (devk, devk_is, h4) = passed (hkdf_devk platform devid salt _) _ h3 in
    let ((iv, tag, ct), sealed, h5) =
      passed (aes_gcm_encrypt platform devk mk' moment.random_iv) _ h4 in
    subst (λ p. Wrapped platform files moment p.0 p.1) (some_same h5)
      (record {
        devid = devid;
        devk = devk;
        devid_is = devid_is;
        salt_is = salt_is;
        devk_is = devk_is;
        encrypted = aes_gcm_encrypt-Encrypted platform devk mk' iv tag ct moment.random_iv sealed;
        magic_is = refl;
        noise_is = shift_noise platform files moment.time moment.pid;
      })

pub Wrapped-IsSized :
    {platform : Platform} {files : Files} {moment : Moment} {mk : Bytes} {blob : WrapBlob}
    → IsAead platform
    → Fills moment
    → Wrapped platform files moment mk blob
    → IsSized blob
unfolding is_valid
Wrapped-IsSized {platform} {files} {moment} {mk} {blob} aead fills w = record {
  magic_valid = rw w.magic_is refl;
  magic_size = rw w.magic_is refl;
  salt_size = fills.salt_size blob.salt w.salt_is;
  iv_size = fills.iv_size blob.iv w.encrypted.random;
  tag_size = aead.tag_size w.devk blob.iv mk blob.ct blob.tag w.encrypted.sealed;
  ct_size = w.encrypted.ct_size;
  noise_size = rw w.noise_is refl;
}
