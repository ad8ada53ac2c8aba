-- ===== src/Metadata/Agreement.antt =====
-- The metadata of the models against the schema of the migrations.
use mathlib.Core.List.{Permᴰ}
use mathlib.Core.List.Permᴰ as PermD
use worker_template.Prelude.{
  String, ◌≡◌, refl, ap, ◌∙◌, sym, false, Option, none, some, [], ◌∷◌, map,
}
use worker_template.Text.{◌+++◌}
use worker_template.Migrations.{
  ColumnType, uuid, timestamp, integer, jsonb, string, enum, Column, Table, Index, Schema, index_on,
  has_index,
}
use worker_template.Migrations.Environment.{version_table}
use worker_template.Metadata.{Field, column_type, is_nullable, SqlModel}

-- The index on `created_at` of `task_attempt`.
abbrev pub created_at_index : Index
created_at_index = index_on "ix_task_attempt_created_at" "task_attempt" ("created_at" ∷ [])

-- A type as the database has it: whether `create_table` was to create it is forgotten.
abbrev pub stored_type : ColumnType → ColumnType
stored_type uuid = uuid
stored_type timestamp = timestamp
stored_type integer = integer
stored_type jsonb = jsonb
stored_type (string n) = string n
stored_type (enum name labels create) = enum name labels false

abbrev pub stored_column : Column → Column
stored_column c = record c { type = stored_type c.type }

abbrev pub stored_table : Table → Table
stored_table t = record t { columns = map stored_column t.columns }

-- The columns that SQLModel's documentation describes, by the `sa_column`.
abbrev documented_by : Field → Option Column → Column
documented_by f none = record {
  name = f.name;
  type = column_type f.type;
  nullable = is_nullable f;
  server_default = f.server_default;
}
documented_by f (some c) = record c { name = f.name }

abbrev documented_column : Field → Column
documented_column f = documented_by f f.sa_column

abbrev documented_name : String → String → String
documented_name table column = "ix_" +++ table +++ "_" +++ column

module _ (orm : SqlModel) where
  column_by :
      (f : Field) (given : Option Column) → f.sa_column ≡ given → orm.column f ≡ documented_column f
  column_by f none e = orm.makes_column f e ∙ ap (documented_by f) (sym e)
  column_by f (some c) e = orm.uses_column f c e ∙ ap (documented_by f) (sym e)

  columns : orm.column ≡ documented_column
  columns = λ i f. column_by f f.sa_column refl i

-- Two schemas with the same types, tables and indexes, but for the table of revisions, which only
-- Alembic creates, and the index that the migrations lack.
pub record AreAlike (declared migrated : Schema) : Type 0 where
  pub types : declared.types ≡ migrated.types
  pub tables :
      Permᴰ (version_table ∷ map stored_table declared.tables) (map stored_table migrated.tables)
  pub indexes : Permᴰ declared.indexes (created_at_index ∷ migrated.indexes)
  pub lacking : has_index created_at_index.name migrated ≡ false
