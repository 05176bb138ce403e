-- ===== src/Database/Sql/Placeholders.antt =====
-- Each statement has as many placeholders as parameters.
use aimrt_comm.Base.{
  ℕ, suc, ◌+◌, ◌≡◌, refl, ap, ◌∙◌, ◌==◌, ltb, Option, none, some, List, [], ◌∷◌, ◌++◌, length,
  length-append, if◌then◌else◌, Bool-cases, inl, inr, arith,
}
use aimrt_comm.Utils.Text.{Text, codes}
use aimrt_comm.Database.Sql.Values.{DbValue, DbRow}
use aimrt_comm.Database.Sql.Statements.{
  Statement, is_empty, comma_separated, columns_of, values_of, marks_of, sets_of, insert_into,
  insert, insert_or_replace, where_clause, update, remove, selected, query_one, query_many, count,
}

-- how many question marks a text has
unfoldable pub marks : Text → ℕ
marks [] = 0
marks (c ∷ s) = let rest = marks s in if c == b'?' then suc rest else rest

pub marks-append : (s t : Text) → marks (s ++ t) ≡ marks s + marks t
unfolding marks
marks-append [] t = omega arith
marks-append (c ∷ s) t = ground (arith, marks-append s t)

abbrev pub all_marks : List Text → ℕ
all_marks [] = 0
all_marks (s ∷ ss) = marks s + all_marks ss

marks-comma_separated : (ss : List Text) → marks (comma_separated ss) ≡ all_marks ss
unfolding comma_separated marks
marks-comma_separated [] = refl
marks-comma_separated (s ∷ []) = omega arith
marks-comma_separated (s ∷ r ∷ rs) =
    marks-append s (b',' ∷ comma_separated (r ∷ rs))
    ∙ ap (λ n. marks s + n) (marks-comma_separated (r ∷ rs))

all_marks-marks_of :
    (data_row : DbRow) → all_marks (marks_of data_row) ≡ length (values_of data_row)
unfolding marks
all_marks-marks_of [] = refl
all_marks-marks_of ((col, val) ∷ data_row) = omega (arith, all_marks-marks_of data_row)

all_marks-sets_of :
    (data_row : DbRow)
    → all_marks (sets_of data_row) ≡ all_marks (columns_of data_row) + length (values_of data_row)
unfolding marks
all_marks-sets_of [] = omega arith
all_marks-sets_of ((col, val) ∷ data_row) =
    omega (arith, all_marks-sets_of data_row, marks-append col (codes "=?"))

marks-where_clause :
    (where_condition : Text) → marks (where_clause where_condition) ≡ marks where_condition
unfolding marks
marks-where_clause [] = refl
marks-where_clause (c ∷ s) = refl

abbrev pub Fits : Option Statement → Type 0
Fits none = Unit {0}
Fits (some statement) = marks statement.sql ≡ length statement.params

-- the names have no question mark, and the condition has one for each of its parameters
pub record ArePlain (table_name : Text) (data_row : DbRow) (columns : List Text)
    (where_condition order_by : Text) (where_params : List DbValue) : Type 0 where
  pub table_plain : marks table_name ≡ 0
  pub row_plain : all_marks (columns_of data_row) ≡ 0
  pub columns_plain : all_marks columns ≡ 0
  pub order_plain : marks order_by ≡ 0
  pub where_fits : marks where_condition ≡ length where_params

skip : (s t : Text) → marks s ≡ 0 → marks (s ++ t) ≡ marks t
skip s t h = marks-append s t ∙ ap (λ n. n + marks t) h ∙ omega arith

stop : (s t : Text) → marks t ≡ 0 → marks (s ++ t) ≡ marks s
stop s t h = marks-append s t ∙ ap (λ n. marks s + n) h ∙ omega arith

insert_into-Fits :
    (verb table_name : Text) (data_row : DbRow)
    → marks verb ≡ 0
    → marks table_name ≡ 0
    → all_marks (columns_of data_row) ≡ 0
    → Fits (insert_into verb table_name data_row)
unfolding insert_into marks
insert_into-Fits verb table_name [] v t c = tt
insert_into-Fits verb table_name ((col, val) ∷ data_row) v t c =
    let row = (col, val) ∷ data_row in
    skip verb _ v
    ∙ skip table_name _ t
    ∙ skip (comma_separated (columns_of row)) _ (marks-comma_separated (columns_of row) ∙ c)
    ∙ stop (comma_separated (marks_of row)) (codes ")") refl
    ∙ marks-comma_separated (marks_of row)
    ∙ all_marks-marks_of row

update-Fits :
    (table_name : Text) (data_row : DbRow) (where_condition : Text) (where_params : List DbValue)
    → marks table_name ≡ 0
    → all_marks (columns_of data_row) ≡ 0
    → marks where_condition ≡ length where_params
    → Fits (update table_name data_row where_condition where_params)
unfolding update marks
update-Fits table_name [] where_condition where_params t c w = tt
update-Fits table_name ((col, val) ∷ data_row) where_condition where_params t c w =
    let row = (col, val) ∷ data_row in
    skip table_name _ t
    ∙ marks-append (comma_separated (sets_of row)) (where_clause where_condition)
    ∙ omega (
      arith,
      marks-comma_separated (sets_of row),
      all_marks-sets_of row,
      marks-where_clause where_condition,
      length-append (values_of row) where_params,
    )

marks-selected : (columns : List Text) → all_marks columns ≡ 0 → marks (selected columns) ≡ 0
unfolding marks
marks-selected [] h = refl
marks-selected (c ∷ cs) h = omega (arith, marks-comma_separated (c ∷ cs))

marks-order :
    (order_by : Text)
    → marks order_by ≡ 0
    → marks (if is_empty order_by then [] else codes " ORDER BY " ++ order_by) ≡ 0
unfolding marks
marks-order [] h = refl
marks-order (c ∷ s) h = h

marks-limit :
    (to_string : ℕ → Text) (limit : ℕ)
    → marks (to_string limit) ≡ 0
    → marks (if ltb 0 limit then codes " LIMIT " ++ to_string limit else []) ≡ 0
unfolding marks
marks-limit to_string limit h = elim (Bool-cases (ltb 0 limit)) [
  | inl e ↦ rw e h
  | inr e ↦ rw e refl
]

-- Whatever the values are, each statement that is made has as many placeholders as parameters, where
-- the names of the table and of the columns and the order have no question mark and the condition
-- has one for each of its parameters.
pub statements-Fits :
    (to_string : ℕ → Text) (table_name : Text) (data_row : DbRow) (columns : List Text)
    (where_condition order_by : Text) (where_params : List DbValue) (limit : ℕ)
    → ((n : ℕ) → marks (to_string n) ≡ 0)
    → ArePlain table_name data_row columns where_condition order_by where_params
    → Fits (insert table_name data_row)
      × Fits (insert_or_replace table_name data_row)
      × Fits (update table_name data_row where_condition where_params)
      × Fits (some (remove table_name where_condition where_params))
      × Fits (some (query_one table_name columns where_condition where_params))
      × Fits (
          some
            (query_many to_string table_name columns where_condition where_params order_by limit))
      × Fits (some (count table_name where_condition where_params))
unfolding insert insert_or_replace remove query_one query_many count marks
statements-Fits to_string table_name data_row columns where_condition order_by where_params limit
      digits plain =
    let fits = marks-where_clause where_condition ∙ plain.where_fits in
    let chosen = marks-selected columns plain.columns_plain in
    let ordered = marks-order order_by plain.order_plain in
    let limited = marks-limit to_string limit (digits limit) in
    (
      insert_into-Fits (codes "INSERT INTO ") table_name data_row refl plain.table_plain
          plain.row_plain,
      insert_into-Fits (codes "INSERT OR REPLACE INTO ") table_name data_row refl plain.table_plain
          plain.row_plain,
      update-Fits table_name data_row where_condition where_params plain.table_plain plain.row_plain
          plain.where_fits,
      skip table_name _ plain.table_plain ∙ fits,
      skip (selected columns) _ chosen
          ∙ skip table_name _ plain.table_plain
          ∙ stop (where_clause where_condition) (codes " LIMIT 1") refl
          ∙ fits,
      skip (selected columns) _ chosen
          ∙ skip table_name _ plain.table_plain
          ∙ stop (where_clause where_condition) _ (
              skip (if is_empty order_by then [] else codes " ORDER BY " ++ order_by)
                (if ltb 0 limit then codes " LIMIT " ++ to_string limit else []) ordered
              ∙ limited)
          ∙ fits,
      skip table_name _ plain.table_plain ∙ fits,
    )
