-- ===== src/Migrations.antt =====
-- migrations/versions/: the changes of the schema, as the operations of Alembic that they call. A
-- table is created only with tables that its foreign keys name, and dropped only when no other table
-- names it, as PostgreSQL demands. Migrations are run in the order of their revisions.
pub mod Baseline
pub mod Models
pub mod Checkout
pub mod RoundTrip
pub mod Head
use human_data.Prelude.{
  String, Option, List, some, ◌∷◌, false, none, if◌then◌else◌, true, Bool, select, ◌||◌, str_eq,
  not, any, [], all, ◌++◌,
}

pub data ColumnType : Type 0 where
  string text_type integer float boolean json timestamp : ColumnType

pub record Column : Type 0 where
  pub name : String
  pub type : ColumnType
  pub nullable : Bool

-- a foreign key is a column with the table whose `id` it names
pub record Table : Type 0 where
  pub name : String
  pub columns : List Column
  pub foreign_keys : List (String × String)
  pub primary_key : String
  pub unique : List String

abbrev pub required : String → ColumnType → Column
required name type = record { name = name; type = type; nullable = false }

abbrev pub optional : String → ColumnType → Column
optional name type = record { name = name; type = type; nullable = true }

-- the newest table first
abbrev pub Schema : Type 0
Schema = List Table

pub data Op : Type 0 where
  create_table : Table → Op
  drop_table : String → Op
  add_column : String → Column → Op
  drop_column : String → String → Op

abbrev pub is_table : String → Table → Bool
is_table name t = str_eq t.name name

abbrev pub has_table : String → Schema → Bool
has_table name s = any (is_table name) s

-- a foreign key of the table names another
abbrev pub names_table : String → Table → Bool
names_table name t = any (λ (fk : String × String). str_eq fk.1 name) t.foreign_keys

-- a foreign key names the table itself, or one of the schema
abbrev pub has_target : Table → Schema → String × String → Bool
has_target t s fk = str_eq fk.1 t.name || has_table fk.1 s

-- the schema without the first table of that name
unfoldable pub remove_table : String → Schema → Schema
remove_table name [] = []
remove_table name (t ∷ s) =
    let rest = remove_table name s in if is_table name t then s else t ∷ rest

abbrev pub is_column : String → Column → Bool
is_column name c = str_eq c.name name

abbrev pub without_column : String → List Column → List Column
without_column name columns = select (λ (c : Column). not (is_column name c)) columns

-- the first table of that name, changed
unfoldable pub change_table : String → (Table → Option Table) → Schema → Option Schema
change_table name f [] = none
change_table name f (t ∷ s) =
    let rest = change_table name f s in
    if is_table name t
    then elim (f t) [ none ↦ none | some u ↦ some (u ∷ s) ]
    else elim rest [ none ↦ none | some s' ↦ some (t ∷ s') ]

abbrev pub with_column : Column → Table → Option Table
with_column c t =
    if any (is_column c.name) t.columns
    then none
    else some (record t { columns = t.columns ++ c ∷ [] })

abbrev pub drop_from : String → Table → Option Table
drop_from name t =
    if any (is_column name) t.columns
    then some (record t { columns = without_column name t.columns })
    else none

-- one operation; `none` is the database's error
unfoldable pub apply : Op → Schema → Option Schema
unfolding remove_table change_table
apply (create_table t) s =
    if has_table t.name s || not (all (has_target t s) t.foreign_keys) then none else some (t ∷ s)
apply (drop_table name) s =
    if not (has_table name s) || any (names_table name) (remove_table name s)
    then none
    else some (remove_table name s)
apply (add_column name c) s = change_table name (with_column c) s
apply (drop_column name c) s = change_table name (drop_from c) s

abbrev pub after_op : Option Schema → (Schema → Option Schema) → Option Schema
after_op none k = none
after_op (some s) k = k s

unfoldable pub run : List Op → Schema → Option Schema
unfolding apply
run [] s = some s
run (op ∷ ops) s = after_op (apply op s) (run ops)
