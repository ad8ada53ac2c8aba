-- ===== src/Metadata.antt =====
-- `SQLModel.metadata`, which the classes of worker_template/models declare, and `init_db` of
-- worker_template/db/session.py, which creates it. SQLModel and SQLAlchemy are interfaces.
pub mod Declared
pub mod Arranged
pub mod Agreement
use mathlib.Core.List.{Permᴰ}
use worker_template.Prelude.{
  String, ◌≡◌, Bool, true, false, not, ◌&&◌, ◌||◌, Option, none, some, List, [], ◌∷◌, ◌++◌, map,
  All, str_eq, ℕ, if◌then◌else◌,
}
use worker_template.Text.{◌+++◌}
use worker_template.Exec.{Result, ok, err, Exec}
use worker_template.Session.{Engine}
use worker_template.Migrations.{
  ColumnType, integer, string, enum, Column, ForeignKey, Check, Table, Index, EnumType, Schema,
  Migration, any, has_type, has_table, has_index,
}

-- The type of a field: an `sa_type`, or that of its annotation, with the `max_length` of a `str`.
pub data FieldType : Type 0 where
  sa_type : ColumnType → FieldType
  of_str : Option ℕ → FieldType
  of_int : FieldType

-- A call of `Field`. `allows_none` says whether the annotation has `| None`; `nullable` and
-- `server_default` are those of `sa_column_kwargs`; a foreign key is a table and its column.
pub record Field : Type 0 where
  pub name : String
  pub type : FieldType
  pub allows_none : Bool
  pub primary_key : Bool
  pub nullable : Option Bool
  pub server_default : Option String
  pub foreign_key : Option (String × String)
  pub index : Bool
  pub sa_column : Option Column

-- A class with `table=True`: its fields with the inherited ones first, and its `__table_args__`.
pub record Model : Type 0 where
  pub tablename : String
  pub fields : List Field
  pub indexes : List Index
  pub checks : List Check

abbrev pub column_type : FieldType → ColumnType
column_type (sa_type t) = t
column_type (of_str max_length) = string max_length
column_type of_int = integer

abbrev pub is_nullable : Field → Bool
is_nullable f = elim f.nullable [ none ↦ not f.primary_key && f.allows_none | some b ↦ b ]

-- SQLModel's columns and SQLAlchemy's names of indexes, as they are documented: an `sa_column` is used
-- as it is; any other field has a column of its type that is nullable as `sa_column_kwargs` say, or
-- else where the annotation has `| None` and the field is no primary key; and the index of a column
-- is named after the table and the column.
pub record SqlModel : Type 0 where
  pub column : Field → Column
  pub uses_column :
      (f : Field) (c : Column) → f.sa_column ≡ some c → column f ≡ record c { name = f.name }
  pub makes_column :
      (f : Field)
      → f.sa_column ≡ none
      → column f ≡ record {
        name = f.name;
        type = column_type f.type;
        nullable = is_nullable f;
        server_default = f.server_default;
      }
  pub index_name : String → String → String
  pub names_index :
      (table column : String) → index_name table column ≡ "ix_" +++ table +++ "_" +++ column

abbrev pub key_columns : List Field → List String
key_columns [] = []
key_columns (f ∷ fs) = let rest = key_columns fs in if f.primary_key then f.name ∷ rest else rest

abbrev pub foreign_keys_of : List Field → List ForeignKey
foreign_keys_of [] = []
foreign_keys_of (f ∷ fs) = elim f.foreign_key [
  | none ↦ foreign_keys_of fs
  | some target ↦
      record { columns = f.name ∷ []; table = target.0; referred = target.1 ∷ [] }
      ∷ foreign_keys_of fs
]

abbrev pub column_indexes : (String → String → String) → String → List Field → List Index
column_indexes index_name table [] = []
column_indexes index_name table (f ∷ fs) =
    let rest = column_indexes index_name table fs in
    if f.index
    then record {
      name = index_name table f.name;
      table = table;
      columns = f.name ∷ [];
      unique = false;
    }
      ∷ rest
    else rest

-- The table and the indexes that a class declares, by the columns and the names of indexes.
abbrev pub table_of : (Field → Column) → Model → Table
table_of column m = record {
  name = m.tablename;
  columns = map column m.fields;
  primary_key = key_columns m.fields;
  foreign_keys = foreign_keys_of m.fields;
  checks = m.checks;
}

abbrev pub indexes_of : (String → String → String) → List Model → List Index
indexes_of index_name [] = []
indexes_of index_name (m ∷ ms) =
    m.indexes ++ column_indexes index_name m.tablename m.fields ++ indexes_of index_name ms

-- The enumerations of some columns, each name once.
abbrev pub add_enum : ColumnType → List EnumType → List EnumType
add_enum (enum name labels create) types =
    if any (λ t. str_eq t.name name) types
    then types
    else types ++ record { name = name; labels = labels } ∷ []
add_enum _ types = types

abbrev pub add_enums : List Column → List EnumType → List EnumType
add_enums [] types = types
add_enums (c ∷ cs) types = add_enums cs (add_enum c.type types)

abbrev pub enums_of : List Table → List EnumType → List EnumType
enums_of [] types = types
enums_of (t ∷ ts) types = enums_of ts (add_enums t.columns types)

-- Each table refers to tables before it or to itself.
abbrev pub are_ordered : List Table → List Table → Bool
are_ordered before [] = true
are_ordered before (t ∷ ts) =
    let rest = are_ordered (before ++ t ∷ []) ts in known t.foreign_keys && rest
  where
    known : List ForeignKey → Bool
    known [] = true
    known (k ∷ keys) =
        let rest = known keys in any (λ o. str_eq o.name k.table) (before ++ t ∷ []) && rest

-- What `create_all` adds to a schema: the enumerations, the tables, and the indexes in some order.
pub record IsCreated (orm : SqlModel) (models : List Model) (s s' : Schema) : Type 0 where
  pub types : s'.types ≡ s.types ++ enums_of (map (table_of orm.column) models) []
  pub tables : s'.tables ≡ s.tables ++ map (table_of orm.column) models
  pub indexes : Permᴰ s'.indexes (s.indexes ++ indexes_of orm.index_name models)

-- None of the objects is in the schema.
pub record AreMissing (orm : SqlModel) (models : List Model) (s : Schema) : Type 0 where
  pub no_types :
      All (λ t. has_type t.name s ≡ false) (enums_of (map (table_of orm.column) models) [])
  pub no_tables : All (λ m. has_table m.tablename s ≡ false) models
  pub no_indexes : All (λ i. has_index i.name s ≡ false) (indexes_of orm.index_name models)

-- `MetaData.create_all` of SQLAlchemy: where none of the objects is there and the tables are in the order
-- of their references, it succeeds.
pub record Sqlalchemy (orm : SqlModel) : Type 0 where
  pub create_all : List Model → Migration
  pub creates :
      (models : List Model) (s : Schema)
      → AreMissing orm models s
      → are_ordered [] (map (table_of orm.column) models) ≡ true
      → ((create_all models s).0 ≡ ok tt) × IsCreated orm models s (create_all models s).1
