-- ===== src/Migrations/Ddl.antt =====
-- A database schema, and the operations of Alembic on it: those of PostgreSQL, which raise where a
-- name is taken or missing. `create_table` first creates the types of the table's enumerations, but
-- for those with `create_type=False`; `drop_table` drops the table's indexes and leaves types alone.
use worker_template.Prelude.{
  ℕ, String, Bool, true, false, not, ◌&&◌, ◌||◌, Option, List, [], ◌∷◌, ◌++◌, str_eq, filter,
  if◌then◌else◌,
}
use worker_template.Exec.{Exec, pure, raise, failure, gets, modify, ◌>>=◌, ◌>>◌}

pub data ColumnType : Type 0 where
  uuid timestamp integer jsonb : ColumnType
  string : Option ℕ → ColumnType
  enum : String → List String → Bool → ColumnType

pub record Column : Type 0 where
  pub name : String
  pub type : ColumnType
  pub nullable : Bool
  pub server_default : Option String

pub record ForeignKey : Type 0 where
  pub columns : List String
  pub table : String
  pub referred : List String

-- `CHECK (column IN (values))`
pub record Check : Type 0 where
  pub name : String
  pub column : String
  pub values : List String

pub record Table : Type 0 where
  pub name : String
  pub columns : List Column
  pub primary_key : List String
  pub foreign_keys : List ForeignKey
  pub checks : List Check

pub record Index : Type 0 where
  pub name : String
  pub table : String
  pub columns : List String
  pub unique : Bool

pub record EnumType : Type 0 where
  pub name : String
  pub labels : List String

pub record Schema : Type 0 where
  pub types : List EnumType
  pub tables : List Table
  pub indexes : List Index

abbrev pub Migration : Type 0
Migration = Exec Schema (Unit {0})

-- Whether a row passes the test.
abbrev pub any {ℓ} : {A : Type ℓ} → (A → Bool) → List A → Bool
any p [] = false
any p (x ∷ xs) = let rest = any p xs in p x || rest

abbrev pub has_type : String → Schema → Bool
has_type name s = any (λ t. str_eq t.name name) s.types

abbrev pub has_table : String → Schema → Bool
has_table name s = any (λ t. str_eq t.name name) s.tables

abbrev pub has_index : String → Schema → Bool
has_index name s = any (λ i. str_eq i.name name) s.indexes

abbrev pub demand : Bool → String → Migration
demand b message = if b then pure tt else raise (failure message)

-- `CREATE TYPE … AS ENUM`
unfoldable pub create_type : String → List String → Migration
create_type name labels = do
  taken ← gets (has_type name)
  demand (not taken) "DuplicateObject"
  modify (λ s. record s { types = s.types ++ record { name = name; labels = labels } ∷ [] })

-- The type of one column: it is created, or it has to be there.
unfoldable pub provide_type : ColumnType → Migration
provide_type (enum name labels true) = create_type name labels
provide_type (enum name labels false) =
    gets (has_type name) >>= λ there. demand there "UndefinedObject"
provide_type _ = pure tt

unfoldable pub provide_types : List Column → Migration
provide_types [] = pure tt
provide_types (c ∷ columns) = provide_type c.type >> provide_types columns

-- The tables that a new table refers to are there, or are the new table.
unfoldable pub check_references : String → List ForeignKey → Migration
check_references name [] = pure tt
check_references name (k ∷ keys) = gets (has_table k.table) >>= λ there.
    demand (str_eq k.table name || there) "UndefinedTable" >> check_references name keys

unfoldable pub create_table : Table → Migration
create_table t = do
  taken ← gets (has_table t.name)
  demand (not taken) "DuplicateTable"
  provide_types t.columns
  check_references t.name t.foreign_keys
  modify (λ s. record s { tables = s.tables ++ t ∷ [] })

unfoldable pub create_index : Index → Migration
create_index i = do
  taken ← gets (has_index i.name)
  demand (not taken) "DuplicateTable"
  there ← gets (has_table i.table)
  demand there "UndefinedTable"
  modify (λ s. record s { indexes = s.indexes ++ i ∷ [] })

unfoldable pub drop_index : String → Migration
drop_index name = do
  there ← gets (has_index name)
  demand there "UndefinedObject"
  modify (λ s. record s { indexes = filter (λ i. not (str_eq i.name name)) s.indexes })

-- Whether another table refers to the table.
abbrev pub refers_to : String → Table → Bool
refers_to name t = not (str_eq t.name name) && any (λ k. str_eq k.table name) t.foreign_keys

unfoldable pub drop_table : String → Migration
drop_table name = do
  there ← gets (has_table name)
  demand there "UndefinedTable"
  needed ← gets (λ s. any (refers_to name) s.tables)
  demand (not needed) "DependentObjectsStillExist"
  modify (λ s. record s {
    tables = filter (λ t. not (str_eq t.name name)) s.tables;
    indexes = filter (λ i. not (str_eq i.table name)) s.indexes;
  })
