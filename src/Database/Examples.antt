-- ===== src/Database/Examples.antt =====
-- The theorems on encrypted databases at a small machine.
use aimrt_comm.Base.{
  ℕ, zero, suc, ◌≡◌, refl, sym, ap, ◌⊎◌, true, false, Option, none, some, List, [], ◌∷◌, ◌++◌,
  length, if◌then◌else◌, arith,
}
use aimrt_comm.Utils.Text.{Text, codes, text_eq}
use aimrt_comm.Database.Bytes.{Bytes}
use aimrt_comm.Database.Device.{Platform, Files, make_devid, make_shift_salt, get_mac_for_iface}
use aimrt_comm.Database.Wrap.{
  WrapBlob, magic_bytes, fields_of, WriteResult, wrote, interrupted, failed, write_fields, write,
  write_loop, is_valid, Storage, returned, write_wrap, read_wrap,
}
use aimrt_comm.Database.Wrap.Layout.{IsSized, joined}
use aimrt_comm.Database.Wrap.Durable.{write_wrap-read_wrap, write_wrap-cut}
use aimrt_comm.Database.Wrap.Completes.{write_wrap-completes}
use aimrt_comm.Database.MasterKey.{
  Moment, zeros, encrypt_mk, decrypt_mk, wrapped_key, hkdf_devk, aes_gcm_encrypt,
}
use aimrt_comm.Database.MasterKey.Wrapping.{IsAead, Fills}
use aimrt_comm.Database.MasterKey.RoundTrip.{decrypt_mk-encrypt_mk}
use aimrt_comm.Database.Encrypted.{Cipher, Answers, Disk}

abbrev mac_text : Text
mac_text = codes "0A-1b:2C:3d:4E:5f"

abbrev ones : ℕ → Bytes
ones zero = []
ones (suc n) = 1 ∷ ones n

abbrev blob : WrapBlob
blob = record {
  magic = magic_bytes;
  salt = ones 16;
  iv = ones 12;
  tag = zeros 16;
  ct = ones 32;
  noise = zeros 16;
}

blob-IsSized : IsSized blob
unfolding is_valid
blob-IsSized = record {
  magic_valid = refl;
  magic_size = refl;
  salt_size = refl;
  iv_size = refl;
  tag_size = refl;
  ct_size = refl;
  noise_size = refl;
}

abbrev each : ℕ → WriteResult → List WriteResult
each zero answer = []
each (suc n) answer = answer ∷ each n answer

abbrev slow : Storage
slow = record {
  opens = true;
  syncs = true;
  permits = true;
  answers = interrupted ∷ each 100 (wrote 1);
}

abbrev full_disk : Storage
full_disk = record slow { answers = wrote 8 ∷ wrote 5 ∷ interrupted ∷ failed ∷ [] }

write_wrap-completes_example : write_wrap slow blob [] ≡ returned true (joined (fields_of blob))
write_wrap-completes_example =
    write_wrap-completes slow blob [] blob-IsSized refl refl refl (omega arith)

write_wrap-cut_example :
    (read_wrap (magic_bytes ++ ones 5) ≡ none) ⊎ (read_wrap (magic_bytes ++ ones 5) ≡ some blob)
unfolding write_wrap write_fields write write_loop
write_wrap-cut_example =
    write_wrap-cut full_disk blob [] (magic_bytes ++ ones 5) false blob-IsSized refl refl

write_wrap-read_wrap_seen : read_wrap (joined (fields_of blob)) ≡ some blob
write_wrap-read_wrap_seen =
    write_wrap-read_wrap slow blob [] (joined (fields_of blob)) blob-IsSized
      (write_wrap-completes slow blob [] blob-IsSized refl refl refl (omega arith))

-- a cipher that keeps the text, and digests and keys of zeros
abbrev platform : Platform
platform = record {
  digest = λ chunks. some (zeros 32);
  sha256 = λ text. zeros 32;
  hkdf = λ salt key infos. some (zeros 32);
  seal = λ key iv pt. some (pt, zeros 16);
  unseal = λ key iv ct tag. some ct;
  to_string = λ n. n ∷ [];
}

some_pair :
    {x y z t : Bytes}
    → ◌≡◌ {A = Option (Bytes × Bytes)} (some (x, y)) (some (z, t))
    → (x ≡ z) × (y ≡ t)
some_pair h = (cc, cc)

platform-IsAead : IsAead platform
platform-IsAead = record {
  unseal-seal =
      λ key iv pt ct tag h. let (same, tagged) = some_pair h in ap (λ l. some l) (sym same);
  tag_size =
      λ key iv pt ct tag h. let (same, tagged) = some_pair h in ap {B = ℕ} length (sym tagged);
}

abbrev files : Files
files path =
    if text_eq path (codes "/agibot/data/info/sn")
    then some (codes "A2-0001" ++ 10 ∷ [])
    else if text_eq path (codes "/agibot/data/info/model")
    then some (codes "A2_LITE" ++ 10 ∷ [])
    else if text_eq path (codes "/sys/class/net/eth_client/address")
    then some (mac_text ++ 10 ∷ [])
    else none

mac_found : get_mac_for_iface files ≡ some (codes "0a1b2c3d4e5f")
unfolding get_mac_for_iface text_eq
mac_found = refl

abbrev moment : Moment
moment = record {
  time = 1700000000;
  pid = 77;
  random_mk = some (ones 32);
  random_salt = some (ones 16);
  random_iv = some (ones 12);
  storage = record slow {
    answers = wrote 8 ∷ wrote 16 ∷ interrupted ∷ wrote 12 ∷ wrote 16 ∷ wrote 32 ∷ wrote 16 ∷ [];
  };
}

moment-Fills : Fills moment
moment-Fills = record {
  salt_size = λ salt h. let e : ones 16 ≡ salt = cc in ap {B = ℕ} length (sym e);
  iv_size = λ iv h. let e : ones 12 ≡ iv = cc in ap {B = ℕ} length (sym e);
}

abbrev wrap : Bytes
wrap = joined (fields_of blob)

key_written : encrypt_mk platform files moment [] [] ≡ (returned true wrap, ones 32)
unfolding encrypt_mk wrapped_key make_devid get_mac_for_iface make_shift_salt hkdf_devk
    aes_gcm_encrypt write_wrap write_fields write write_loop
key_written = refl

decrypt_mk-encrypt_mk_example :
    decrypt_mk platform files 1800000000 3 (some wrap) [] ≡ (true, ones 32)
decrypt_mk-encrypt_mk_example =
    decrypt_mk-encrypt_mk platform files moment 1800000000 3 [] [] wrap (ones 32) [] platform-IsAead
      moment-Fills key_written

-- a database is known by the key it is encrypted with, if it is
abbrev cipher : Cipher (Option Bytes)
cipher = record {
  created = λ mk. some mk;
  is_plain = λ file. elim file [ none ↦ true | some mk ↦ false ];
  exported = λ file mk. some mk;
  verified = λ mk there. elim there [
    | none ↦ true
    | some file ↦ elim file [ none ↦ false | some mk' ↦ text_eq mk mk' ]
  ];
}

-- the first byte of a key
abbrev first_byte : Bytes → ℕ
first_byte [] = 0
first_byte (b ∷ bs) = b

abbrev good : Answers
good = record {
  opened = true;
  selected = true;
  attached = true;
  keyed = true;
  executed = true;
  removed = true;
  renamed = true;
}

abbrev plain_disk : Disk (Option Bytes)
plain_disk = record { wrap = []; db = some none; temp = none }

abbrev encrypted_disk : Disk (Option Bytes)
encrypted_disk = record { wrap = wrap; db = some (some (ones 32)); temp = none }

-- a second call of `encrypt_db`, whose database has another key
abbrev lost_disk : Disk (Option Bytes)
lost_disk = record { wrap = []; db = some (some (zeros 32)); temp = none }
