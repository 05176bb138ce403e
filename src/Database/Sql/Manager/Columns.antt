-- ===== src/Database/Sql/Manager/Columns.antt =====
-- Adding a column.
use aimrt_comm.Base.{◌≡◌, refl, sym, ap, ◌∙◌, inl, inr, Bool, true, [], Bool-cases, arith}
use aimrt_comm.Utils.Text.{Text}
use aimrt_comm.Database.Sql.Statements.{Statement, ColumnDefinition, add_column}
use aimrt_comm.Database.Sql.Manager.{
  Sqlite, Manager, is_done, execute, query, any_named, column_exists, table_info, add_column_to,
}

module _ {Db : Type 0} (sqlite : Sqlite Db) where
  -- whether the columns of a table have the name, at a state of the database
  abbrev pub has_column : Text → Text → Db → Bool
  has_column table_name column_name db =
      (column_exists sqlite table_name column_name (record { db = db; last_error = [] })).0

  -- the column is listed once the statement that adds it is done
  abbrev pub ListsColumn : Text → ColumnDefinition → Type 0
  ListsColumn table_name col =
      (db : Db)
      → is_done
          (sqlite.reply db (add_column table_name col).sql (add_column table_name col).params).steps
        ≡ true
      → has_column table_name col.name
          (sqlite.after db (add_column table_name col).sql (add_column table_name col).params)
        ≡ true

  query-db : (statement : Statement) (m : Manager Db) → (query sqlite statement m).1.db ≡ m.db
  unfolding query
  query-db statement m = ground arith

  query-rows :
      (statement : Statement) (m : Manager Db)
      → (query sqlite statement m).0
        ≡ (query sqlite statement (record { db = m.db; last_error = [] })).0
  unfolding query
  query-rows statement m = ground arith

  execute-done :
      (statement : Statement) (m m' : Manager Db)
      → execute sqlite statement m ≡ (true, m')
      → (is_done (sqlite.reply m.db statement.sql statement.params).steps ≡ true)
        × (m'.db ≡ sqlite.after m.db statement.sql statement.params)
  unfolding execute
  execute-done statement m m' h = (ground arith, ground arith)

  column_exists-db :
      (table_name column_name : Text) (m : Manager Db)
      → (column_exists sqlite table_name column_name m).0 ≡ has_column table_name column_name m.db
  unfolding column_exists
  column_exists-db table_name column_name m =
      ap (any_named column_name) (query-rows (table_info table_name) m)

  listed_again :
      (table_name : Text) (col : ColumnDefinition) (m : Manager Db)
      → has_column table_name col.name m.db ≡ true
      → ((add_column_to sqlite table_name col m).0 ≡ true)
        × ((add_column_to sqlite table_name col m).1.db ≡ m.db)
  unfolding add_column_to column_exists
  listed_again table_name col m h =
      let exists = column_exists-db table_name col.name m ∙ h in
      rw exists (refl, query-db (table_info table_name) m)

  -- Where the statement that adds a column makes SQLite list it, adding it again after it was added
  -- succeeds and leaves the database as it is.
  pub add_column_to-again :
      (table_name : Text) (col : ColumnDefinition) (m m' : Manager Db)
      → ListsColumn table_name col
      → add_column_to sqlite table_name col m ≡ (true, m')
      → ((add_column_to sqlite table_name col m').0 ≡ true)
        × ((add_column_to sqlite table_name col m').1.db ≡ m'.db)
  unfolding add_column_to column_exists
  add_column_to-again table_name col m m' lists h =
      listed_again table_name col m'
        (elim (Bool-cases (column_exists sqlite table_name col.name m).0) [
          | inl exists ↦
              (let h' = rw exists at h in
                let same : m'.db ≡ m.db =
                  ap (λ (r : Bool × Manager Db). r.1.db) (sym h')
                  ∙ query-db (table_info table_name) m in
                ap (has_column table_name col.name) same
                ∙ sym (column_exists-db table_name col.name m)
                ∙ exists)
          | inr missing ↦
              (let h' = rw missing at h in
                let (did, made) =
                  execute-done (add_column table_name col)
                    (query sqlite (table_info table_name) m).1 m' h' in
                ap (has_column table_name col.name) made
                ∙ lists (query sqlite (table_info table_name) m).1.db did)
        ])
