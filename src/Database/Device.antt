-- ===== src/Database/Device.antt =====
-- What identifies the machine (src/database/security.cpp): the texts of its files, the normalised
-- MAC address, the device fingerprint and the disturbance of the key.
pub mod Mac
use aimrt_comm.Base.{
  ℕ, zero, suc, ◌+◌, ◌*◌, ◌/◌, ◌%◌, ◌^◌, Bool, true, false, not, ◌&&◌, ◌||◌, ◌==◌, leb, Option,
  none, some, List, [], ◌∷◌, ◌++◌, map, length, filter, all, if◌then◌else◌,
}
use aimrt_comm.Utils.Text.{Text, codes, strip_prefix}
use aimrt_comm.Database.Bytes.{Bytes, take, drop}

-- OpenSSL and the C++ library: the SHA-256 digest of chunks one after the other, `none` where a call
-- fails; that of one text; HKDF of a salt, a key and pieces of info; AES-GCM, which gives the cipher
-- text and the tag, and its inverse, which gives `none` for a tag that does not fit; `std::to_string`
pub record Platform : Type 0 where
  pub digest : List Bytes → Option Bytes
  pub sha256 : Bytes → Bytes
  pub hkdf : Bytes → Bytes → List Bytes → Option Bytes
  pub seal : Bytes → Bytes → Bytes → Option (Bytes × Bytes)
  pub unseal : Bytes → Bytes → Bytes → Bytes → Option Bytes
  pub to_string : ℕ → Text

-- the files of a machine by their paths, `none` for one that does not open
abbrev pub Files : Type 0
Files = Text → Option Text

unfoldable pub is_separator : ℕ → Bool
is_separator c = c == b':' || c == b'-'

-- `std::tolower` and `std::isxdigit` of the C locale
unfoldable pub to_lower : ℕ → ℕ
to_lower c = if leb b'A' c && leb c b'Z' then c + 32 else c

unfoldable pub is_xdigit : ℕ → Bool
is_xdigit c = (leb b'0' c && leb c b'9') || (leb b'A' c && leb c b'F') || (leb b'a' c && leb c b'f')

unfoldable pub normalize_mac_address : Text → Option Text
unfolding filter all is_separator to_lower is_xdigit
normalize_mac_address s =
    let s' = map to_lower (filter (λ c. not (is_separator c)) s) in
    if not (length s' == 12) then none else if not (all is_xdigit s') then none else some s'

abbrev is_line_end : ℕ → Bool
is_line_end c = c == 10 || c == 13

-- the text without the line ends at its end
unfoldable pub trim_end : Text → Text
trim_end [] = []
trim_end (c ∷ s) = elim (trim_end s) [
  | [] ↦ if is_line_end c then [] else c ∷ []
  | d ∷ rest ↦ c ∷ d ∷ rest
]

unfoldable pub read_text_trim : Files → Text → Option Text
unfolding trim_end
read_text_trim files path = elim (files path) [ none ↦ none | some s ↦ some (trim_end s) ]

-- `s.find(part) != npos`
unfoldable pub contains : Text → Text → Bool
unfolding strip_prefix
contains part [] = elim part [ [] ↦ true | c ∷ rest ↦ false ]
contains part (c ∷ s) = elim (strip_prefix part (c ∷ s)) [
  | some rest ↦ true
  | none ↦ contains part s
]

-- the file of the network card for a model of the machine
unfoldable pub mac_address_file_path : Text → Option Text
unfolding contains
mac_address_file_path model =
    if contains (codes "_LITE") model
    then some (codes "/sys/class/net/eth_client/address")
    else if contains (codes "_FLAGSHIP") model
    then some (codes "/sys/class/net/eth0/address")
    else none

unfoldable pub get_mac_for_iface : Files → Option Text
unfolding read_text_trim mac_address_file_path normalize_mac_address
get_mac_for_iface files = elim (read_text_trim files (codes "/agibot/data/info/model")) [
  | none ↦ none
  | some model ↦ elim (mac_address_file_path model) [
    | none ↦ none
    | some path ↦ elim (read_text_trim files path) [
      | none ↦ none
      | some mac ↦ normalize_mac_address mac
    ]
  ]
]

-- what is digested: a part that is missing is left out
abbrev pub chunk : Option Text → List Bytes
chunk none = []
chunk (some s) = s ∷ []

unfoldable pub make_devid : Platform → Files → Option Bytes
unfolding read_text_trim get_mac_for_iface
make_devid platform files =
    elim (platform.digest (
      chunk (read_text_trim files (codes "/agibot/data/info/sn"))
      ++ chunk (get_mac_for_iface files))) [
        | none ↦ none
        | some devid ↦ if length devid == 32 then some devid else none
      ]

-- a 64-bit integer in memory, the lowest byte first
abbrev pub u64_bytes : ℕ → ℕ → Bytes
u64_bytes zero n = []
u64_bytes (suc k) n = (n % 256) ∷ u64_bytes k (n / 256)

abbrev pub u64_of : Bytes → ℕ
u64_of [] = 0
u64_of (b ∷ bytes) = b + 256 * u64_of bytes

abbrev pub value_or : Option Text → Text
value_or none = []
value_or (some s) = s

-- what is hashed for the disturbance
unfoldable pub raw_factors : Platform → Files → ℕ → ℕ → Text
unfolding read_text_trim get_mac_for_iface
raw_factors platform files time pid =
    ((platform.to_string time ++ value_or (read_text_trim files (codes "/agibot/data/info/sn")))
      ++ platform.to_string pid)
    ++ value_or (get_mac_for_iface files)

-- the disturbance and the noise after it, at a clock and a process id; `noise` is a fixed array, whose
-- `empty()` asks for its size
unfoldable pub make_shift_salt : Platform → Files → ℕ → ℕ → Bytes → Bytes × Bytes
unfolding raw_factors
make_shift_salt platform files time pid noise =
    if length noise == 0
    then (
      platform.sha256 (raw_factors platform files time pid),
      u64_bytes 8 time ++ u64_bytes 8 pid,
    )
    else (
      platform.sha256
          (raw_factors platform files (u64_of (take 8 noise)) (u64_of (take 8 (drop 8 noise)))),
      noise,
    )
