-- ===== src/Metadata/Declared.antt =====
-- The classes of worker_template/models/base.py, task_execution.py and task_attempt.py as they are
-- declared, and `init_db` of worker_template/db/session.py.
use worker_template.Prelude.{
  String, Bool, true, false, Option, none, some, List, [], ◌∷◌, ◌++◌, map, get_or,
}
use worker_template.Exec.{Exec}
use worker_template.Session.{Engine}
use worker_template.Models.{
  TaskStatus, queued, running, retrying, completed, failed, cancelled, partial,
}
use worker_template.Migrations.{uuid, timestamp, jsonb, string, enum, Migration, index_on, required}
use worker_template.Migrations.Values.{member_name}
use worker_template.Migrations.Databases.{Databases, transaction}
use worker_template.Metadata.{
  FieldType, sa_type, of_str, of_int, Field, Model, SqlModel, Sqlalchemy,
}

-- A field of which nothing but its type is given.
abbrev pub plain_field : String → FieldType → Bool → Field
plain_field name type allows_none = record {
  name = name;
  type = type;
  allows_none = allows_none;
  primary_key = false;
  nullable = none;
  server_default = none;
  foreign_key = none;
  index = false;
  sa_column = none;
}

-- The fields of `TimestampedTable`.
abbrev pub timestamped_table : List Field
timestamped_table =
    record (plain_field "id" (sa_type uuid) true) {
      primary_key = true;
      server_default = some "gen_random_uuid()";
      nullable = some false;
    }
    ∷ record (plain_field "created_at" (sa_type timestamp) true) {
      server_default = some "now()";
      nullable = some false;
      index = true;
    }
    ∷ record (plain_field "updated_at" (sa_type timestamp) true) {
      server_default = some "now()";
      nullable = some false;
    }
    ∷ []

-- The members of `TaskStatus` in their order.
abbrev pub task_statuses : List TaskStatus
task_statuses =
    TaskStatus.pending ∷ queued ∷ running ∷ retrying ∷ completed ∷ failed ∷ cancelled ∷ partial ∷ []

-- `sa.Enum(TaskStatus, name="taskstatus", create_constraint=True)`, by the names of the members.
abbrev pub taskstatus : FieldType
taskstatus = sa_type (enum "taskstatus" (map member_name task_statuses) true)

abbrev pub task_execution : Model
task_execution = record {
  tablename = "task_execution";
  fields =
      timestamped_table
      ++ record (plain_field "task_name" (of_str (some 255)) false) { index = true }
        ∷ plain_field "status" taskstatus false
        ∷ plain_field "total_steps" of_int true
        ∷ plain_field "completed_steps" of_int false
        ∷ plain_field "status_message" (of_str (some 1000)) true
        ∷ record (plain_field "tenant_id" (sa_type uuid) false) { index = true }
        ∷ record (plain_field "parent_task_id" (sa_type uuid) true) {
          foreign_key = some ("task_execution", "id");
          index = true;
        }
        ∷ plain_field "config_snapshot" (sa_type jsonb) true
        ∷ plain_field "result_url" (of_str (some 2048)) true
        ∷ plain_field "error_detail" (of_str none) true
        ∷ plain_field "started_at" (sa_type timestamp) true
        ∷ plain_field "completed_at" (sa_type timestamp) true
        ∷ plain_field "retry_count" of_int false
        ∷ plain_field "max_retries" of_int false
        ∷ [];
  indexes =
      index_on "ix_task_execution_tenant_status" "task_execution" ("tenant_id" ∷ "status" ∷ [])
      ∷ [];
  checks = [];
}

abbrev pub task_attempt : Model
task_attempt = record {
  tablename = "task_attempt";
  fields =
      timestamped_table
      ++ record (plain_field "task_execution_id" (sa_type uuid) false) {
        foreign_key = some ("task_execution", "id");
        index = true;
      }
        ∷ record (plain_field "tenant_id" (sa_type uuid) false) { index = true }
        ∷ plain_field "attempt_number" of_int false
        ∷ plain_field "status_before" taskstatus false
        ∷ plain_field "status_after" taskstatus false
        ∷ plain_field "error_detail" (of_str none) true
        ∷ record (plain_field "dispatch_result" (of_str none) false) {
          sa_column = some (required "" (string (some 32)));
        }
        ∷ [];
  indexes =
      index_on "ix_task_attempt_task_execution_created" "task_attempt"
        ("task_execution_id" ∷ "created_at" ∷ [])
      ∷ index_on "ix_task_attempt_tenant_created" "task_attempt" ("tenant_id" ∷ "created_at" ∷ [])
      ∷ [];
  checks =
      record {
        name = "ck_task_attempt_dispatch_result";
        column = "dispatch_result";
        values = "blocked" ∷ "dispatched" ∷ "dispatch_failed" ∷ "pending" ∷ "shadowed" ∷ [];
      }
      ∷ [];
}

-- `SQLModel.metadata` once both classes are imported, in the order of their references.
abbrev pub metadata : List Model
metadata = task_execution ∷ task_attempt ∷ []

-- `async with engine.begin() as connection`
abbrev pub begin : Engine → Migration → Exec Databases (Unit {0})
begin engine block = transaction engine.database_url block

-- `init_db`, with the module's engine and the argument `db_engine`.
unfoldable pub init_db :
    {orm : SqlModel} → Sqlalchemy orm → Engine → Option Engine → Exec Databases (Unit {0})
init_db library engine db_engine = begin (get_or db_engine engine) (library.create_all metadata)
