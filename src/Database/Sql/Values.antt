-- ===== src/Database/Sql/Values.antt =====
-- `bind_parameters` and `extract_value`: values on their way into SQLite and out of it.
pub mod RoundTrip
use aimrt_comm.Base.{
  ℕ, zero, suc, ◌+◌, ◌-◌, ◌^◌, Bool, true, false, ◌==◌, ltb, Option, none, some, List, [], ◌∷◌,
  ◌++◌, if◌then◌else◌,
}
use aimrt_comm.Base.Fallible.{◌>>=◌}
use aimrt_comm.Utils.Text.{Text}
use aimrt_comm.Utils.OrderedMap.{upsert}
use aimrt_comm.Database.Bytes.{Bytes}

-- `DBValue`; numbers are bit patterns, of 32 or 64 bits
pub data DbValue : Type 0 where
  null : DbValue
  bool : Bool → DbValue
  int32 : ℕ → DbValue
  int64 : ℕ → DbValue
  double : ℕ → DbValue
  text : Text → DbValue
  blob : Bytes → DbValue

-- `DBRow`
abbrev pub DbRow : Type 0
DbRow = List (Text × DbValue)

-- the five storage classes of SQLite
pub data Stored : Type 0 where
  null : Stored
  integer : ℕ → Stored
  real : ℕ → Stored
  text : Text → Stored
  blob : Bytes → Stored

-- an `int` as an integer of 64 bits
abbrev pub sign_extend : ℕ → ℕ
sign_extend n = if ltb n (2 ^ 31) then n else n + (2 ^ 64 - 2 ^ 32)

-- which of the functions `sqlite3_bind_...` is called; an empty vector without a buffer has a null
-- `data()`, for which `sqlite3_bind_blob` binds NULL
unfoldable pub bound : DbValue → Stored
bound DbValue.null = Stored.null
bound (bool b) = integer (if b then 1 else 0)
bound (int32 n) = integer (sign_extend n)
bound (int64 n) = integer n
bound (double n) = real n
bound (DbValue.text s) = Stored.text s
bound (DbValue.blob []) = Stored.null
bound (DbValue.blob (byte ∷ bytes)) = Stored.blob (byte ∷ bytes)

-- the calls with the indices from one, up to the first that fails; `takes` says which succeed
unfoldable pub bind_from : (ℕ → Stored → Bool) → ℕ → List DbValue → Option (List Stored)
unfolding bound
bind_from takes i [] = some []
bind_from takes i (val ∷ params) = elim (takes (i + 1) (bound val)) [
  | false ↦ none
  | true ↦ (bind_from takes (i + 1) params >>= λ rest. some (bound val ∷ rest))
]

unfoldable pub bind_parameters : (ℕ → Stored → Bool) → List DbValue → Option (List Stored)
unfolding bind_from
bind_parameters takes params = bind_from takes 0 params

-- `std::string(const char*)`, which ends before the first zero byte
unfoldable pub c_string : Text → Text
c_string [] = []
c_string (c ∷ s) = let rest = c_string s in if c == 0 then [] else c ∷ rest

unfoldable pub extract_value : Stored → DbValue
unfolding c_string
extract_value Stored.null = DbValue.null
extract_value (integer n) = int64 n
extract_value (real n) = double n
extract_value (Stored.text s) = DbValue.text (c_string s)
extract_value (Stored.blob bytes) = DbValue.blob bytes

-- one row of a result, by its columns from the left: `row[name] = ...`
unfoldable pub extract_row : List (Text × Stored) → DbRow → DbRow
unfolding extract_value upsert
extract_row [] row = row
extract_row ((name, value) ∷ columns) row =
    extract_row columns (upsert name (λ before. extract_value value) row)

-- what the calls of `sqlite3_step` return
pub data Step : Type 0 where
  row_of : List (Text × Stored) → Step
  done failed : Step

-- the loop of `query` over these
unfoldable pub fetch : List Step → List DbRow
unfolding extract_row
fetch [] = []
fetch (row_of columns ∷ steps) = extract_row columns [] ∷ fetch steps
fetch (done ∷ steps) = []
fetch (failed ∷ steps) = []
