-- ===== src/Database/Sql/Statements.antt =====
-- The texts of the statements, with the parameters that are bound to them.
pub mod Literal
use aimrt_comm.Base.{
  ℕ, Bool, true, false, not, Option, none, some, List, [], ◌∷◌, ◌++◌, map, if◌then◌else◌, ltb,
}
use aimrt_comm.Utils.Text.{Text, codes}
use aimrt_comm.Database.Sql.Values.{DbValue, DbRow}

-- what `execute` or `query` is called with
pub record Statement : Type 0 where
  pub sql : Text
  pub params : List DbValue

abbrev pub is_empty {ℓ} : {A : Type ℓ} → List A → Bool
is_empty [] = true
is_empty (x ∷ xs) = false

-- the loops that put a comma before every item but the first
unfoldable pub comma_separated : List Text → Text
comma_separated [] = []
comma_separated (s ∷ ss) = elim ss [ [] ↦ s | r ∷ rs ↦ s ++ b',' ∷ comma_separated ss ]

abbrev pub columns_of : DbRow → List Text
columns_of [] = []
columns_of ((col, val) ∷ data_row) = col ∷ columns_of data_row

abbrev pub values_of : DbRow → List DbValue
values_of [] = []
values_of ((col, val) ∷ data_row) = val ∷ values_of data_row

abbrev pub marks_of : DbRow → List Text
marks_of [] = []
marks_of ((col, val) ∷ data_row) = codes "?" ∷ marks_of data_row

abbrev pub sets_of : DbRow → List Text
sets_of [] = []
sets_of ((col, val) ∷ data_row) = (col ++ codes "=?") ∷ sets_of data_row

-- `INSERT` and `INSERT OR REPLACE`; `none` is a result of false with nothing executed
unfoldable pub insert_into : Text → Text → DbRow → Option Statement
unfolding comma_separated
insert_into verb table_name data_row =
    if is_empty data_row
    then none
    else some (record {
      sql =
          verb
          ++ (table_name
              ++ (codes " ("
                  ++ (comma_separated (columns_of data_row)
                      ++ (codes ") VALUES ("
                          ++ (comma_separated (marks_of data_row) ++ codes ")")))));
      params = values_of data_row;
    })

unfoldable pub insert : Text → DbRow → Option Statement
unfolding insert_into
insert table_name data_row = insert_into (codes "INSERT INTO ") table_name data_row

unfoldable pub insert_or_replace : Text → DbRow → Option Statement
unfolding insert_into
insert_or_replace table_name data_row =
    insert_into (codes "INSERT OR REPLACE INTO ") table_name data_row

abbrev pub where_clause : Text → Text
where_clause where_condition =
    if is_empty where_condition then [] else codes " WHERE " ++ where_condition

unfoldable pub update : Text → DbRow → Text → List DbValue → Option Statement
unfolding comma_separated
update table_name data_row where_condition where_params =
    if is_empty data_row
    then none
    else some (record {
      sql =
          codes "UPDATE "
          ++ (table_name
              ++ (codes " SET "
                  ++ (comma_separated (sets_of data_row) ++ where_clause where_condition)));
      params = values_of data_row ++ where_params;
    })

unfoldable pub remove : Text → Text → List DbValue → Statement
remove table_name where_condition where_params = record {
  sql = codes "DELETE FROM " ++ (table_name ++ where_clause where_condition);
  params = where_params;
}

-- the columns of a query
abbrev pub selected : List Text → Text
selected columns = if is_empty columns then codes "*" else comma_separated columns

unfoldable pub query_one : Text → List Text → Text → List DbValue → Statement
unfolding comma_separated
query_one table_name columns where_condition where_params = record {
  sql =
      codes "SELECT "
      ++ (selected columns
          ++ (codes " FROM "
              ++ (table_name ++ (where_clause where_condition ++ codes " LIMIT 1"))));
  params = where_params;
}

-- a limit that is negative is zero here, which the code treats alike; `to_string` is the library's
unfoldable pub query_many :
    (ℕ → Text) → Text → List Text → Text → List DbValue → Text → ℕ → Statement
unfolding comma_separated
query_many to_string table_name columns where_condition where_params order_by limit = record {
  sql =
      codes "SELECT "
      ++ (selected columns
          ++ (codes " FROM "
              ++ (table_name
                  ++ (where_clause where_condition
                      ++ ((if is_empty order_by then [] else codes " ORDER BY " ++ order_by)
                          ++ (if ltb 0 limit then codes " LIMIT " ++ to_string limit else []))))));
  params = where_params;
}

unfoldable pub count : Text → Text → List DbValue → Statement
count table_name where_condition where_params = record {
  sql = codes "SELECT COUNT(*) AS count FROM " ++ (table_name ++ where_clause where_condition);
  params = where_params;
}

-- `ColumnDefinition`
pub record ColumnDefinition : Type 0 where
  pub name : Text
  pub type : Text
  pub is_primary_key : Bool
  pub is_auto_increment : Bool
  pub is_not_null : Bool
  pub is_unique : Bool
  pub default_value : Option Text

-- what `set_default_value` stores
unfoldable pub quoted : Text → Text
quoted value = if is_empty value then codes "''" else b'\'' ∷ (value ++ b'\'' ∷ [])

unfoldable pub set_default_value : Text → ColumnDefinition → ColumnDefinition
unfolding quoted
set_default_value value col = record col { default_value = some (quoted value) }

abbrev default_clause : Option Text → Text
default_clause none = []
default_clause (some value) = codes " DEFAULT " ++ value

abbrev when : Bool → Text → Text
when true s = s
when false s = []

unfoldable pub column_text : ColumnDefinition → Text
column_text col =
    col.name
    ++ (codes " "
        ++ (col.type
            ++ (when col.is_primary_key (codes " PRIMARY KEY")
                ++ (when col.is_auto_increment (codes " AUTOINCREMENT")
                    ++ (when col.is_not_null (codes " NOT NULL")
                        ++ (when col.is_unique (codes " UNIQUE")
                            ++ default_clause col.default_value))))))

-- `create_table` over texts, and over definitions
unfoldable pub create_table : Text → List Text → Option Statement
unfolding comma_separated
create_table table_name columns =
    if is_empty columns
    then none
    else some (record {
      sql =
          codes "CREATE TABLE IF NOT EXISTS "
          ++ (table_name ++ (codes " (" ++ (comma_separated columns ++ codes ")")));
      params = [];
    })

unfoldable pub create_table_of : Text → List ColumnDefinition → Option Statement
unfolding create_table column_text
create_table_of table_name columns = create_table table_name (map column_text columns)

-- the statement of `add_column`, for a column that is not there
unfoldable pub add_column : Text → ColumnDefinition → Statement
add_column table_name col = record {
  sql =
      codes "ALTER TABLE "
      ++ (table_name
          ++ (codes " ADD COLUMN "
              ++ (col.name
                  ++ (codes " "
                      ++ (col.type
                          ++ (when col.is_not_null (codes " NOT NULL")
                              ++ default_clause col.default_value))))));
  params = [];
}
