-- ===== src/Database/Sql/Examples.antt =====
-- Statements, values and a column at a small database.
use aimrt_comm.Base.{ℕ, ◌≡◌, ◌≢◌, refl, Bool, true, false, none, some, List, [], ◌∷◌, if◌then◌else◌}
use aimrt_comm.Utils.Text.{Text, codes, text_eq, strip_prefix}
use aimrt_comm.Database.Sql.Values.{
  DbValue, DbRow, int32, int64, Stored, integer, Step, row_of, done, fetch,
}
use aimrt_comm.Database.Sql.Statements.{
  insert, insert_or_replace, update, remove, query_one, query_many, count, quoted, ColumnDefinition,
  add_column,
}
use aimrt_comm.Database.Sql.Statements.Literal.{has_quote, literal_text, literal_text-quoted}
use aimrt_comm.Database.Sql.Manager.{Sqlite, Manager, column_exists, add_column_to}
use aimrt_comm.Database.Sql.Manager.Columns.{ListsColumn}
use aimrt_comm.Database.Sql.Placeholders.{marks, Fits, statements-Fits}

abbrev user_row : DbRow
user_row = (codes "age", int32 42) ∷ (codes "name", DbValue.text (codes "what?")) ∷ []

insert_users :
    insert (codes "users") user_row
    ≡ some (record {
      sql = codes "INSERT INTO users (age,name) VALUES (?,?)";
      params = int32 42 ∷ DbValue.text (codes "what?") ∷ [];
    })
unfolding insert
insert_users = refl

update_users :
    update (codes "users") user_row (codes "id=?") (int64 7 ∷ [])
    ≡ some (record {
      sql = codes "UPDATE users SET age=?,name=? WHERE id=?";
      params = int32 42 ∷ DbValue.text (codes "what?") ∷ int64 7 ∷ [];
    })
unfolding update
update_users = refl

no_digits : ℕ → Text
no_digits n = []

statements-Fits_example :
    Fits (insert (codes "users") user_row)
    × Fits (insert_or_replace (codes "users") user_row)
    × Fits (update (codes "users") user_row (codes "id=?") (int64 7 ∷ []))
    × Fits (some (remove (codes "users") (codes "id=?") (int64 7 ∷ [])))
    × Fits (
        some (
          query_one
            (codes "users")
            (codes "age" ∷ codes "name" ∷ [])
            (codes "id=?")
            (int64 7 ∷ [])))
    × Fits (
        some (
          query_many no_digits
            (codes "users")
            (codes "age" ∷ codes "name" ∷ [])
            (codes "id=?")
            (int64 7 ∷ [])
            (codes "age")
            3))
    × Fits (some (count (codes "users") (codes "id=?") (int64 7 ∷ [])))
unfolding marks no_digits
statements-Fits_example =
    statements-Fits no_digits (codes "users") user_row (codes "age" ∷ codes "name" ∷ [])
      (codes "id=?") (codes "age") (int64 7 ∷ []) 3 (λ n. refl)
      (record {
        table_plain = refl;
        row_plain = refl;
        columns_plain = refl;
        order_plain = refl;
        where_fits = refl;
      })

literal_text-quoted_example :
    (has_quote (codes "it's") ≡ false → literal_text (quoted (codes "it's")) ≡ some (codes "it's"))
    × (has_quote (codes "it's") ≡ true → literal_text (quoted (codes "it's")) ≢ some (codes "it's"))
literal_text-quoted_example = literal_text-quoted (codes "it's")

fetched :
    fetch (row_of ((codes "n", integer 3) ∷ (codes "n", Stored.null) ∷ []) ∷ done ∷ row_of [] ∷ [])
    ≡ ((codes "n", DbValue.null) ∷ []) ∷ []
unfolding fetch text_eq
fetched = refl

-- a database of one table, which has the column "age" or not
abbrev is_pragma : Text → Bool
is_pragma sql = elim (strip_prefix (codes "PRAGMA") sql) [ none ↦ false | some rest ↦ true ]

abbrev age_row : List Step
age_row = row_of ((codes "name", Stored.text (codes "age")) ∷ []) ∷ done ∷ []

abbrev answered : Bool → Bool → List Step
answered true true = age_row
answered true false = done ∷ []
answered false db = done ∷ []

abbrev sqlite : Sqlite Bool
sqlite = record {
  reply = λ db sql params. record {
    prepares = true;
    takes = λ i v. true;
    steps = answered (is_pragma sql) db;
    errmsg = [];
  };
  after = λ db sql params. if is_pragma sql then db else true;
}

abbrev age : ColumnDefinition
age = record {
  name = codes "age";
  type = codes "INTEGER";
  is_primary_key = false;
  is_auto_increment = false;
  is_not_null = false;
  is_unique = false;
  default_value = none;
}

age-ListsColumn : ListsColumn sqlite (codes "users") age
unfolding column_exists add_column strip_prefix
age-ListsColumn db h = refl

abbrev closed_book : Bool → Manager Bool
closed_book db = record { db = db; last_error = [] }

age_added : add_column_to sqlite (codes "users") age (closed_book false) ≡ (true, closed_book true)
unfolding add_column_to add_column strip_prefix
age_added = refl
