-- ===== src/Database/Device/Mac.antt =====
-- Normal MAC addresses.
use aimrt_comm.Base.{
  ℕ, Bool, not, ◌&&◌, ◌||◌, ◌==◌, leb, Option, none, some, length, all, if◌then◌else◌,
}
use aimrt_comm.Utils.Text.{Text}
use aimrt_comm.Database.Device.{is_xdigit}

-- a decimal digit or a letter from a to f
abbrev pub is_lower_xdigit : ℕ → Bool
is_lower_xdigit c = (leb b'0' c && leb c b'9') || (leb b'a' c && leb c b'f')

abbrev accept : Text → Option Text
accept u = if not (length u == 12) then none else if not (all is_xdigit u) then none else some u
