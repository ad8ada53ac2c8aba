-- ===== src/Migrations.antt =====
-- The migrations of alembic/versions: what each one creates and what its downgrade removes.
mod Ddl
pub use Ddl.{
  ColumnType, uuid, timestamp, integer, jsonb, string, enum, Column, ForeignKey, Check, Table,
  Index, EnumType, Schema, Migration, any, has_type, has_table, has_index,
}
unfoldable pub use Ddl.{create_table, create_index, drop_index, drop_table}
pub mod Databases
pub mod Environment
pub mod Versioned
pub mod Online
pub mod Framed
pub mod RoundTrip
pub mod Values
use worker_template.Prelude.{String, Bool, true, false, Option, none, some, List, [], ◌∷◌}
use worker_template.Exec.{◌>>◌}

-- `sa.Column` of a type that has to be given.
abbrev pub required : String → ColumnType → Column
required name type = record { name = name; type = type; nullable = false; server_default = none }

abbrev pub optional : String → ColumnType → Column
optional name type = record { name = name; type = type; nullable = true; server_default = none }

abbrev pub defaulted : String → ColumnType → String → Column
defaulted name type text = record {
  name = name;
  type = type;
  nullable = false;
  server_default = some text;
}

-- The labels of the type `taskstatus`, the names of the members of `TaskStatus`.
abbrev pub taskstatus_labels : List String
taskstatus_labels =
    "PENDING" ∷ "QUEUED" ∷ "RUNNING" ∷ "RETRYING" ∷ "COMPLETED" ∷ "FAILED" ∷ "CANCELLED" ∷ "PARTIAL"
    ∷ []

abbrev pub task_execution_table : Table
task_execution_table = record {
  name = "task_execution";
  columns =
      defaulted "id" uuid "gen_random_uuid()"
      ∷ defaulted "created_at" timestamp "now()"
      ∷ defaulted "updated_at" timestamp "now()"
      ∷ required "task_name" (string (some 255))
      ∷ required "status" (enum "taskstatus" taskstatus_labels true)
      ∷ optional "total_steps" integer
      ∷ required "completed_steps" integer
      ∷ optional "status_message" (string (some 1000))
      ∷ required "tenant_id" uuid
      ∷ optional "parent_task_id" uuid
      ∷ optional "config_snapshot" jsonb
      ∷ optional "result_url" (string (some 2048))
      ∷ optional "error_detail" (string none)
      ∷ optional "started_at" timestamp
      ∷ optional "completed_at" timestamp
      ∷ required "retry_count" integer
      ∷ required "max_retries" integer
      ∷ [];
  primary_key = "id" ∷ [];
  foreign_keys =
      record { columns = "parent_task_id" ∷ []; table = "task_execution"; referred = "id" ∷ [] }
      ∷ [];
  checks = [];
}

-- An index that is not unique.
abbrev pub index_on : String → String → List String → Index
index_on name table columns = record {
  name = name;
  table = table;
  columns = columns;
  unique = false;
}

unfoldable pub initial_upgrade : Migration
initial_upgrade = do
  create_table task_execution_table
  create_index (index_on "ix_task_execution_created_at" "task_execution" ("created_at" ∷ []))
  create_index
      (index_on "ix_task_execution_parent_task_id" "task_execution" ("parent_task_id" ∷ []))
  create_index (index_on "ix_task_execution_task_name" "task_execution" ("task_name" ∷ []))
  create_index (index_on "ix_task_execution_tenant_id" "task_execution" ("tenant_id" ∷ []))
  create_index
      (index_on "ix_task_execution_tenant_status" "task_execution" ("tenant_id" ∷ "status" ∷ []))

unfoldable pub initial_downgrade : Migration
initial_downgrade = do
  drop_index "ix_task_execution_tenant_status"
  drop_index "ix_task_execution_tenant_id"
  drop_index "ix_task_execution_task_name"
  drop_index "ix_task_execution_parent_task_id"
  drop_index "ix_task_execution_created_at"
  drop_table "task_execution"

abbrev pub task_attempt_table : Table
task_attempt_table = record {
  name = "task_attempt";
  columns =
      defaulted "id" uuid "gen_random_uuid()"
      ∷ defaulted "created_at" timestamp "now()"
      ∷ defaulted "updated_at" timestamp "now()"
      ∷ required "task_execution_id" uuid
      ∷ required "tenant_id" uuid
      ∷ required "attempt_number" integer
      ∷ required "status_before" (enum "taskstatus" taskstatus_labels false)
      ∷ required "status_after" (enum "taskstatus" taskstatus_labels false)
      ∷ optional "error_detail" (string none)
      ∷ required "dispatch_result" (string (some 32))
      ∷ [];
  primary_key = "id" ∷ [];
  foreign_keys =
      record { columns = "task_execution_id" ∷ []; table = "task_execution"; referred = "id" ∷ [] }
      ∷ [];
  checks =
      record {
        name = "ck_task_attempt_dispatch_result";
        column = "dispatch_result";
        values = "blocked" ∷ "dispatched" ∷ "dispatch_failed" ∷ "pending" ∷ "shadowed" ∷ [];
      }
      ∷ [];
}

unfoldable pub audit_upgrade : Migration
audit_upgrade = do
  create_table task_attempt_table
  create_index
      (index_on "ix_task_attempt_task_execution_id" "task_attempt" ("task_execution_id" ∷ []))
  create_index (index_on "ix_task_attempt_tenant_id" "task_attempt" ("tenant_id" ∷ []))
  create_index (
      index_on "ix_task_attempt_task_execution_created" "task_attempt"
        ("task_execution_id" ∷ "created_at" ∷ []))
  create_index
      (index_on "ix_task_attempt_tenant_created" "task_attempt" ("tenant_id" ∷ "created_at" ∷ []))

unfoldable pub audit_downgrade : Migration
audit_downgrade = do
  drop_index "ix_task_attempt_tenant_created"
  drop_index "ix_task_attempt_task_execution_created"
  drop_index "ix_task_attempt_tenant_id"
  drop_index "ix_task_attempt_task_execution_id"
  drop_table "task_attempt"
