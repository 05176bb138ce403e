-- ===== src/Database/Sql/Manager.antt =====
-- `SecureDatabase` as an object: running a statement, and the questions that are answered by queries
-- (src/database/database.cpp). The lock that each call takes lets one writer or many readers through.
pub mod Columns
use aimrt_comm.Base.{
  ℕ, Bool, true, false, not, Option, none, some, List, [], ◌∷◌, ◌++◌, if◌then◌else◌,
}
use aimrt_comm.Base.Fallible.{◌>>=◌}
use aimrt_comm.Utils.Text.{Text, codes, text_eq}
use aimrt_comm.Utils.OrderedMap.{find}
use aimrt_comm.Database.Sql.Values.{
  DbValue, DbRow, int32, int64, Stored, sign_extend, bind_parameters, Step, done, failed, row_of,
  fetch,
}
use aimrt_comm.Database.Sql.Statements.{
  Statement, ColumnDefinition, count, add_column, create_table,
}

-- what SQLite answers to a statement: whether it is prepared, which bindings succeed, what the steps
-- return, and its message for an error
pub record Reply : Type 0 where
  pub prepares : Bool
  pub takes : ℕ → Stored → Bool
  pub steps : List Step
  pub errmsg : Text

-- the connection: the reply to a statement with what is bound to it, and the database after it
pub record Sqlite (Db : Type 0) : Type 0 where
  pub reply : Db → Text → List DbValue → Reply
  pub after : Db → Text → List DbValue → Db

pub record Manager (Db : Type 0) : Type 0 where
  pub db : Db
  pub last_error : Text

-- `sqlite3_step` once
unfoldable pub is_done : List Step → Bool
is_done (done ∷ steps) = true
is_done (failed ∷ steps) = false
is_done (row_of columns ∷ steps) = false
is_done [] = false

abbrev with_error : {Db : Type 0} → Text → Manager Db → Manager Db
with_error message m = record m { last_error = message }

-- `res[0]`, if there is one
abbrev pub first_row : List DbRow → Option DbRow
first_row [] = none
first_row (row ∷ rows) = some row

-- the number in the column "count"; `none` is -1
abbrev pub number : Option DbValue → Option ℕ
number none = none
number (some (int64 n)) = some n
number (some (int32 n)) = some (sign_extend n)
number (some other) = none

-- a row whose column "name" is the given text
abbrev pub is_named : Text → Option DbValue → Bool
is_named name none = false
is_named name (some (DbValue.text s)) = text_eq s name
is_named name (some other) = false

unfoldable pub any_named : Text → List DbRow → Bool
unfolding find text_eq
any_named name [] = false
any_named name (row ∷ rows) =
    let rest = any_named name rows in if is_named name (find (codes "name") row) then true else rest

abbrev pub table_info : Text → Statement
table_info table_name = record {
  sql = codes "PRAGMA table_info(" ++ (table_name ++ codes ")");
  params = [];
}

abbrev pub named_table : Text → Statement
named_table table_name = record {
  sql = codes "SELECT name FROM sqlite_master WHERE type='table' AND name=?";
  params = DbValue.text table_name ∷ [];
}

module _ {Db : Type 0} (sqlite : Sqlite Db) where
  -- the statement has no effect unless it is prepared and bound
  unfoldable pub execute : Statement → Manager Db → Bool × Manager Db
  unfolding bind_parameters is_done
  execute statement m =
      let reply = sqlite.reply m.db statement.sql statement.params in
      if not reply.prepares
      then (false, with_error reply.errmsg m)
      else elim (bind_parameters reply.takes statement.params) [
        | none ↦ (false, with_error (codes "Failed to bind parameters") m)
        | some bindings ↦
            let m' = record m { db = sqlite.after m.db statement.sql statement.params } in
            if is_done reply.steps then (true, m') else (false, with_error reply.errmsg m')
      ]

  unfoldable pub query : Statement → Manager Db → List DbRow × Manager Db
  unfolding bind_parameters fetch
  query statement m =
      let reply = sqlite.reply m.db statement.sql statement.params in
      if not reply.prepares
      then ([], with_error reply.errmsg m)
      else elim (bind_parameters reply.takes statement.params) [
        | none ↦ ([], with_error (codes "Failed to bind parameters") m)
        | some bindings ↦ (fetch reply.steps, m)
      ]

  -- the writing calls: a result of false where there is no statement
  unfoldable pub execute_if : Option Statement → Manager Db → Bool × Manager Db
  unfolding execute
  execute_if none m = (false, m)
  execute_if (some statement) m = execute statement m

  unfoldable pub count_rows : Text → Text → List DbValue → Manager Db → Option ℕ × Manager Db
  unfolding query count find
  count_rows table_name where_condition where_params m =
      let (rows, m') = query (count table_name where_condition where_params) m in
      (first_row rows >>= λ row. number (find (codes "count") row), m')

  unfoldable pub column_exists : Text → Text → Manager Db → Bool × Manager Db
  unfolding query any_named
  column_exists table_name column_name m =
      let (rows, m') = query (table_info table_name) m in (any_named column_name rows, m')

  unfoldable pub add_column_to : Text → ColumnDefinition → Manager Db → Bool × Manager Db
  unfolding column_exists execute
  add_column_to table_name col m =
      let (exists, m') = column_exists table_name col.name m in
      if exists then (true, m') else execute (add_column table_name col) m'

  unfoldable pub table_exists : Text → Manager Db → Bool × Manager Db
  unfolding query
  table_exists table_name m =
      let (rows, m') = query (named_table table_name) m in
      (elim rows [ [] ↦ false | row ∷ rest ↦ true ], m')

  unfoldable pub drop_table : Text → Manager Db → Bool × Manager Db
  unfolding execute
  drop_table table_name m =
      execute (record { sql = codes "DROP TABLE IF EXISTS " ++ table_name; params = [] }) m

  unfoldable pub begin_transaction : Manager Db → Bool × Manager Db
  unfolding execute
  begin_transaction m = execute (record { sql = codes "BEGIN TRANSACTION"; params = [] }) m

  unfoldable pub commit_transaction : Manager Db → Bool × Manager Db
  unfolding execute
  commit_transaction m = execute (record { sql = codes "COMMIT"; params = [] }) m

  unfoldable pub rollback_transaction : Manager Db → Bool × Manager Db
  unfolding execute
  rollback_transaction m = execute (record { sql = codes "ROLLBACK"; params = [] }) m
