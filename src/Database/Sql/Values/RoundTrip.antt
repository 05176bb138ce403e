-- ===== src/Database/Sql/Values/RoundTrip.antt =====
-- What was bound is extracted, up to the width of integers and the end of texts.
use aimrt_comm.Base.{Bool, true, false, ◌==◌, [], ◌∷◌, if◌then◌else◌}
use aimrt_comm.Utils.Text.{Text}
use aimrt_comm.Database.Sql.Values.{DbValue, bool, int32, int64, double, sign_extend}

-- a value as it comes back: booleans and integers of 32 bits are widened
abbrev pub widened : DbValue → DbValue
widened DbValue.null = DbValue.null
widened (bool b) = int64 (if b then 1 else 0)
widened (int32 n) = int64 (sign_extend n)
widened (int64 n) = int64 n
widened (double n) = double n
widened (DbValue.text s) = DbValue.text s
widened (DbValue.blob bytes) = DbValue.blob bytes

-- a text that has a zero byte
unfoldable pub has_zero : Text → Bool
has_zero [] = false
has_zero (c ∷ s) = let rest = has_zero s in if c == 0 then true else rest

-- a value that does not come back: a text that is cut, or a blob that becomes null
abbrev pub is_lost : DbValue → Bool
is_lost (DbValue.text s) = has_zero s
is_lost (DbValue.blob []) = true
is_lost _ = false

text_of : DbValue → Text
text_of (DbValue.text s) = s
text_of _ = []
