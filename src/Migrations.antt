-- ===== src/Migrations.antt =====
-- The migrations of apps/messaging/src/migrations and apps/gateway/src/migrations: what they do to the
-- schema of a database. A call of the query runner is the DDL statement that it stands for.
pub mod Messaging
pub mod Gateway
pub mod Statements
pub mod Revert
mod Examples
use contract_driven_messagin.Common.{
  ℕ, String, Bool, true, false, ◌&&◌, ◌||◌, not, List, [], ◌∷◌, ◌++◌, Option, none, some, any, keep,
  str_eq, if◌then◌else◌,
}

pub data ColumnType : Type 0 where
  integer int varchar text jsonb timestamp : ColumnType

pub record Column : Type 0 where
  pub name : String
  pub type : ColumnType
  pub length : Option ℕ
  pub is_primary : Bool
  pub is_generated : Bool
  pub is_nullable : Bool
  pub is_unique : Bool
  pub default : Option String

pub record TableSchema : Type 0 where
  pub name : String
  pub columns : List Column

-- `where_present` is the column of a partial index `WHERE … IS NOT NULL`.
pub record Index : Type 0 where
  pub name : String
  pub table : String
  pub columns : List String
  pub is_unique : Bool
  pub is_descending : Bool
  pub where_present : Option String

-- The tables in no order, the columns in theirs.
pub record Schema : Type 0 where
  pub tables : List TableSchema
  pub indices : List Index

-- `createTable` with `ifNotExists`, `addColumn`, and `createIndex` or `CREATE INDEX`.
pub data Creation : Type 0 where
  create_table : TableSchema → Creation
  add_column : String → Column → Creation
  create_index : Index → Creation

-- `drop_index_if_exists` is `DROP INDEX IF EXISTS`.
pub data Removal : Type 0 where
  drop_table : String → Removal
  drop_column : String → String → Removal
  drop_index drop_index_if_exists : String → Removal

pub record Migration : Type 0 where
  pub name : String
  pub up : List Creation
  pub down : List Removal

-- A column of which the source gives nothing else: it is not nullable.
abbrev pub column : String → ColumnType → Option ℕ → Column
column n t l = record {
  name = n;
  type = t;
  length = l;
  is_primary = false;
  is_generated = false;
  is_nullable = false;
  is_unique = false;
  default = none;
}

-- `new TableIndex({ name, columnNames })`.
abbrev pub index : String → String → List String → Index
index n t cs = record {
  name = n;
  table = t;
  columns = cs;
  is_unique = false;
  is_descending = false;
  where_present = none;
}

abbrev pub find_table : String → List TableSchema → Option TableSchema
find_table n [] = none
find_table n (t ∷ ts) = if str_eq t.name n then some t else find_table n ts

abbrev pub has_column : String → List Column → Bool
has_column c cs = any (λ x. str_eq x.name c) cs

abbrev pub has_index : String → List Index → Bool
has_index n is = any (λ i. str_eq i.name n) is

abbrev pub remove_table : String → List TableSchema → List TableSchema
remove_table n [] = []
remove_table n (t ∷ ts) = if str_eq t.name n then ts else t ∷ remove_table n ts

abbrev pub remove_column : String → List Column → List Column
remove_column c [] = []
remove_column c (x ∷ cs) = if str_eq x.name c then cs else x ∷ remove_column c cs

abbrev pub remove_index : String → List Index → List Index
remove_index n [] = []
remove_index n (i ∷ is) = if str_eq i.name n then is else i ∷ remove_index n is

-- The table `n` with other columns.
abbrev pub set_columns : String → List Column → List TableSchema → List TableSchema
set_columns n cs [] = []
set_columns n cs (t ∷ ts) =
    if str_eq t.name n then record t { columns = cs } ∷ ts else t ∷ set_columns n cs ts

-- Every name is a column.
abbrev pub have_columns : List String → List Column → Bool
have_columns [] cs = true
have_columns (n ∷ ns) cs = has_column n cs && have_columns ns cs

abbrev pub is_on_table : String → Index → Bool
is_on_table n i = str_eq i.table n

abbrev pub is_on_column : String → String → Index → Bool
is_on_column n c i = str_eq i.table n && any (λ k. str_eq k c) i.columns

abbrev pub add_column_to : String → Column → Schema → Option TableSchema → Option Schema
add_column_to n c s none = none
add_column_to n c s (some t) =
    if has_column c.name t.columns
    then none
    else some (record s { tables = set_columns n (t.columns ++ (c ∷ [])) s.tables })

abbrev pub index_on : Index → Schema → Option TableSchema → Option Schema
index_on i s none = none
index_on i s (some t) =
    if have_columns i.columns t.columns then some (record s { indices = i ∷ s.indices }) else none

abbrev pub create_unless_found : TableSchema → Schema → Option TableSchema → Option Schema
create_unless_found t s none = some (record s { tables = t ∷ s.tables })
create_unless_found t s (some found) = some s

-- `none` is an error of the database.
unfoldable pub create : Creation → Schema → Option Schema
create (create_table t) s = create_unless_found t s (find_table t.name s.tables)
create (add_column n c) s = add_column_to n c s (find_table n s.tables)
create (create_index i) s =
    if has_index i.name s.indices then none else index_on i s (find_table i.table s.tables)

-- Dropping a column of a table: the indices on the column go with it.
abbrev pub drop_column_of : String → String → Schema → Option TableSchema → Option Schema
drop_column_of n c s none = none
drop_column_of n c s (some t) =
    if has_column c t.columns
    then some (record {
      tables = set_columns n (remove_column c t.columns) s.tables;
      indices = keep (λ i. not (is_on_column n c i)) s.indices;
    })
    else none

abbrev pub drop_table_of : String → Schema → Option TableSchema → Option Schema
drop_table_of n s none = none
drop_table_of n s (some t) = some (record {
  tables = remove_table n s.tables;
  indices = keep (λ i. not (is_on_table n i)) s.indices;
})

unfoldable pub remove : Removal → Schema → Option Schema
remove (drop_table n) s = drop_table_of n s (find_table n s.tables)
remove (drop_column n c) s = drop_column_of n c s (find_table n s.tables)
remove (drop_index n) s =
    if has_index n s.indices then some (record s { indices = remove_index n s.indices }) else none
remove (drop_index_if_exists n) s = some (record s { indices = remove_index n s.indices })

abbrev pub and_then : (Schema → Option Schema) → Option Schema → Option Schema
and_then f none = none
and_then f (some s) = f s

-- The statements of `up`, in order, and those of `down`.
unfoldable pub create_all : List Creation → Schema → Option Schema
unfolding create
create_all [] s = some s
create_all (c ∷ cs) s = and_then (create_all cs) (create c s)

unfoldable pub remove_all : List Removal → Schema → Option Schema
unfolding remove
remove_all [] s = some s
remove_all (r ∷ rs) s = and_then (remove_all rs) (remove r s)

-- The migrations in order, and their reversal, the last one first.
unfoldable pub run_migrations : List Migration → Schema → Option Schema
unfolding create_all
run_migrations [] s = some s
run_migrations (m ∷ ms) s = and_then (run_migrations ms) (create_all m.up s)

unfoldable pub revert_migrations : List Migration → Schema → Option Schema
unfolding remove_all
revert_migrations [] s = some s
revert_migrations (m ∷ ms) s = and_then (remove_all m.down) (revert_migrations ms s)
