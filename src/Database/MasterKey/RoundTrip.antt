-- ===== src/Database/MasterKey/RoundTrip.antt =====
-- A key that was wrapped is unwrapped on the same machine.
use aimrt_comm.Base.{
  ℕ, ◌≡◌, refl, ap, ◌∙◌, ◌⊎◌, inl, inr, true, false, Option, none, some, [], length, arith,
}
use aimrt_comm.Base.Fallible.{◌>>=◌, passed}
use aimrt_comm.Database.Bytes.{Bytes}
use aimrt_comm.Database.Device.{Platform, Files, make_devid, make_shift_salt}
use aimrt_comm.Database.Wrap.{WrapBlob, Written, threw, returned, waits, write_wrap, read_wrap}
use aimrt_comm.Database.Wrap.Durable.{write_wrap-read_wrap}
use aimrt_comm.Database.MasterKey.Wrapping.{
  IsAead, Fills, aes_gcm_decrypt-encrypt, shift_same, Wrapped, some_same, wrapped_key-Wrapped,
  Wrapped-IsSized,
}
use aimrt_comm.Database.MasterKey.{
  hkdf_devk, aes_gcm_decrypt, Moment, wrapped_key, hand_out, store_key, encrypt_mk, unwrapped_key,
  key_result, decrypt_mk,
}

decrypt_mk-Wrapped :
    {platform : Platform} {files : Files} {moment : Moment} {mk : Bytes} {blob : WrapBlob}
    (time pid : ℕ) (file out_mk : Bytes)
    → IsAead platform
    → Wrapped platform files moment mk blob
    → read_wrap file ≡ some blob
    → decrypt_mk platform files time pid (some file) out_mk ≡ (true, mk)
unfolding decrypt_mk unwrapped_key
decrypt_mk-Wrapped {platform} {files} {moment} {mk} {blob} time pid file out_mk aead w h =
    let devk_is : hkdf_devk platform w.devid blob.salt
          (make_shift_salt platform files time pid blob.noise).0
        ≡ some w.devk =
      ap (λ n. hkdf_devk platform w.devid blob.salt (make_shift_salt platform files time pid n).0)
        w.noise_is
      ∙ ap (λ s. hkdf_devk platform w.devid blob.salt s.0)
          (shift_same platform files time pid moment.time moment.pid)
      ∙ w.devk_is in
    rw (w.devid_is, h, devk_is, aes_gcm_decrypt-encrypt aead w.encrypted) refl

encrypt_mk-wrapped_key :
    (platform : Platform) (files : Files) (moment : Moment) (old out_mk file mk : Bytes)
    → encrypt_mk platform files moment old out_mk ≡ (returned true file, mk)
    → (blob : WrapBlob) × (wrapped_key platform files moment ≡ some (mk, blob))
      × (write_wrap moment.storage blob old ≡ returned true file)
unfolding encrypt_mk
encrypt_mk-wrapped_key platform files moment old out_mk file mk h =
    by_key (wrapped_key platform files moment) refl h
  where
    by_written :
        (mk' : Bytes) (w : Written)
        → hand_out mk' out_mk w ≡ (returned true file, mk)
        → (w ≡ returned true file) × (mk' ≡ mk)
    by_written mk' waits k = cc
    by_written mk' (threw file') k = cc
    by_written mk' (returned true file') k = (cc, cc)
    by_written mk' (returned false file') k = cc

    by_key :
        (w : Option (Bytes × WrapBlob))
        → wrapped_key platform files moment ≡ w
        → store_key moment.storage old out_mk w ≡ (returned true file, mk)
        → (blob : WrapBlob) × (wrapped_key platform files moment ≡ some (mk, blob))
          × (write_wrap moment.storage blob old ≡ returned true file)
    by_key none e k = cc
    by_key (some (mk', blob)) e k =
        let (written, same) = by_written mk' (write_wrap moment.storage blob old) k in
        (blob, e ∙ ap (λ (m : Bytes). some (m, blob)) same, written)

-- Where `encrypt_mk` has returned true, `decrypt_mk` on the same machine gives the same key from the
-- file, at any other time and in any other process, whatever was in `out_mk`.
pub decrypt_mk-encrypt_mk :
    (platform : Platform) (files : Files) (moment : Moment) (time pid : ℕ)
    (old out_mk file mk before : Bytes)
    → IsAead platform
    → Fills moment
    → encrypt_mk platform files moment old out_mk ≡ (returned true file, mk)
    → decrypt_mk platform files time pid (some file) before ≡ (true, mk)
decrypt_mk-encrypt_mk platform files moment time pid old out_mk file mk before aead fills h =
    let (blob, wrapped, written) =
      encrypt_mk-wrapped_key platform files moment old out_mk file mk h in
    let w = wrapped_key-Wrapped platform files moment mk blob wrapped in
    decrypt_mk-Wrapped time pid file before aead w
      (write_wrap-read_wrap moment.storage blob old file (Wrapped-IsSized aead fills w) written)

-- The wrap file and the key that `encrypt_mk` leaves do not depend on the clock and the process id:
-- the noise is never empty, so they are not mixed in.
pub encrypt_mk-moment :
    (platform : Platform) (files : Files) (moment : Moment) (old out_mk : Bytes) (time pid : ℕ)
    → encrypt_mk platform files (record moment { time = time; pid = pid }) old out_mk
      ≡ encrypt_mk platform files moment old out_mk
unfolding encrypt_mk wrapped_key make_shift_salt
encrypt_mk-moment platform files moment old out_mk time pid = refl

length-aes_gcm_decrypt :
    (platform : Platform) (key ct iv tag pt : Bytes)
    → aes_gcm_decrypt platform key ct iv tag ≡ some pt
    → length pt ≡ 32
unfolding aes_gcm_decrypt
length-aes_gcm_decrypt platform key ct iv tag pt h = ground arith

length-unwrapped_key :
    (platform : Platform) (files : Files) (time pid : ℕ) (file : Option Bytes) (mk : Bytes)
    → unwrapped_key platform files time pid file ≡ some (some mk)
    → length mk ≡ 32
unfolding unwrapped_key
length-unwrapped_key platform files time pid file mk h =
    let (devid, devid_is, h1) = passed (make_devid platform files) _ h in
    let (blob, blob_is, h2) = passed (file >>= read_wrap) _ h1 in
    let (devk, devk_is, h3) = passed (hkdf_devk platform devid blob.salt _) _ h2 in
    length-aes_gcm_decrypt platform devk blob.ct blob.iv blob.tag mk (some_same h3)

-- `decrypt_mk` gives a key of 32 bytes with true, or nothing with false, where `out_mk` was empty.
pub length-decrypt_mk :
    (platform : Platform) (files : Files) (time pid : ℕ) (file : Option Bytes)
    → (decrypt_mk platform files time pid file [] ≡ (false, []))
      ⊎ ((mk : Bytes) × (decrypt_mk platform files time pid file [] ≡ (true, mk))
          × (length mk ≡ 32))
unfolding decrypt_mk
length-decrypt_mk platform files time pid file =
    by_key (unwrapped_key platform files time pid file) refl
  where
    by_key :
        (w : Option (Option Bytes))
        → unwrapped_key platform files time pid file ≡ w
        → (key_result [] (unwrapped_key platform files time pid file) ≡ (false, []))
          ⊎ ((mk : Bytes) × (key_result [] (unwrapped_key platform files time pid file)
                ≡ (true, mk))
              × (length mk ≡ 32))
    by_key none e = inl (rw e refl)
    by_key (some none) e = inl (rw e refl)
    by_key (some (some mk)) e =
        inr (mk, rw e refl, length-unwrapped_key platform files time pid file mk e)
