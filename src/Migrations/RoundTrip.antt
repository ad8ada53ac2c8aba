-- ===== src/Migrations/RoundTrip.antt =====
-- Both migrations and their downgrades on any schema that has none of their objects.
use worker_template.Prelude.{
  String, str_eq, ◌≡◌, refl, ap, ◌∙◌, sym, false, List, [], ◌∷◌, ◌++◌, All, arith,
}
use mathlib.Core.List.{append-nil}
use worker_template.Exec.{ok, err, failure, pure, raise, gets, modify, ◌>>=◌, ◌>>◌}
use worker_template.Migrations.{
  Schema, Index, Migration, task_execution_table, task_attempt_table, taskstatus_labels, index_on,
  initial_upgrade, initial_downgrade, audit_upgrade, audit_downgrade,
}
use worker_template.Migrations.Ddl.{
  any, create_type, provide_type, provide_types, check_references, create_table, create_index,
  drop_index, drop_table, has_type, has_table, has_index, refers_to,
}
use worker_template.Migrations.Framed.{
  over, any-append, IsUntyped, Frames, Frames-bind, create_table-Frames, create_index-Frames,
  drop_index-Frames, drop_table-Frames,
}

-- `alembic upgrade head` and `alembic downgrade base`
abbrev pub upgrade_head : Migration
upgrade_head = initial_upgrade >> audit_upgrade

abbrev pub downgrade_base : Migration
downgrade_base = audit_downgrade >> initial_downgrade

-- The indexes of both tables.
abbrev pub execution_indexes : List Index
execution_indexes =
    index_on "ix_task_execution_created_at" "task_execution" ("created_at" ∷ [])
    ∷ index_on "ix_task_execution_parent_task_id" "task_execution" ("parent_task_id" ∷ [])
    ∷ index_on "ix_task_execution_task_name" "task_execution" ("task_name" ∷ [])
    ∷ index_on "ix_task_execution_tenant_id" "task_execution" ("tenant_id" ∷ [])
    ∷ index_on "ix_task_execution_tenant_status" "task_execution" ("tenant_id" ∷ "status" ∷ [])
    ∷ []

abbrev pub attempt_indexes : List Index
attempt_indexes =
    index_on "ix_task_attempt_task_execution_id" "task_attempt" ("task_execution_id" ∷ [])
    ∷ index_on "ix_task_attempt_tenant_id" "task_attempt" ("tenant_id" ∷ [])
    ∷ index_on "ix_task_attempt_task_execution_created" "task_attempt"
        ("task_execution_id" ∷ "created_at" ∷ [])
    ∷ index_on "ix_task_attempt_tenant_created" "task_attempt" ("tenant_id" ∷ "created_at" ∷ [])
    ∷ []

abbrev IsUnrelated : Schema → String → Type 0
IsUnrelated base name =
    (has_table name base ≡ false)
    × (any (refers_to name) base.tables ≡ false)
    × (any (λ i. str_eq i.table name) base.indexes ≡ false)

-- A schema that has none of the objects of the migrations and nothing that refers to them.
pub record IsFresh (base : Schema) : Type 0 where
  pub no_type : has_type "taskstatus" base ≡ false
  pub no_executions : IsUnrelated base "task_execution"
  pub no_attempts : IsUnrelated base "task_attempt"
  pub no_indexes : All (λ i. has_index i.name base ≡ false) (execution_indexes ++ attempt_indexes)

abbrev empty : Schema
empty = record { types = []; tables = []; indexes = [] }

-- What the downgrade leaves of the migrations.
abbrev pub left_type : Schema
left_type = record {
  types = record { name = "taskstatus"; labels = taskstatus_labels } ∷ [];
  tables = [];
  indexes = [];
}

abbrev pub head : Schema
head = record {
  types = record { name = "taskstatus"; labels = taskstatus_labels } ∷ [];
  tables = task_execution_table ∷ task_attempt_table ∷ [];
  indexes = execution_indexes ++ attempt_indexes;
}

upgrade_own : upgrade_head empty ≡ (ok tt, head)
unfolding initial_upgrade audit_upgrade create_table create_index provide_types provide_type
    create_type check_references gets modify pure raise ◌>>=◌
upgrade_own = refl

downgrade_own : downgrade_base head ≡ (ok tt, left_type)
unfolding initial_downgrade audit_downgrade drop_table drop_index gets modify pure raise ◌>>=◌
downgrade_own = refl

module _ (base : Schema) (h : IsFresh base) where
  -- The columns of both tables need no type of the schema.
  execution_columns : All (λ c. IsUntyped base c.type) task_execution_table.columns
  execution_columns = ground (arith, h.no_type)

  attempt_columns : All (λ c. IsUntyped base c.type) task_attempt_table.columns
  attempt_columns = ground (arith, h.no_type)

  initial_upgrade-Frames : Frames base initial_upgrade
  unfolding initial_upgrade
  initial_upgrade-Frames =
      Frames-bind base _ _
        (create_table-Frames base task_execution_table h.no_executions.0 execution_columns
          (h.no_executions.0, tt))
        (Frames-bind base _ _ (create_index-Frames base _ h.no_indexes.0 h.no_executions.0) (
          Frames-bind base _ _ (create_index-Frames base _ h.no_indexes.1.0 h.no_executions.0) (
            Frames-bind base _ _ (create_index-Frames base _ h.no_indexes.1.1.0 h.no_executions.0) (
              Frames-bind base _ _
                (create_index-Frames base _ h.no_indexes.1.1.1.0 h.no_executions.0)
                (create_index-Frames base _ h.no_indexes.1.1.1.1.0 h.no_executions.0)))))

  audit_upgrade-Frames : Frames base audit_upgrade
  unfolding audit_upgrade
  audit_upgrade-Frames =
      Frames-bind base _ _
        (create_table-Frames base task_attempt_table h.no_attempts.0 attempt_columns
          (h.no_executions.0, tt))
        (Frames-bind base _ _ (create_index-Frames base _ h.no_indexes.1.1.1.1.1.0 h.no_attempts.0)
          (Frames-bind base _ _
            (create_index-Frames base _ h.no_indexes.1.1.1.1.1.1.0 h.no_attempts.0)
            (Frames-bind base _ _
              (create_index-Frames base _ h.no_indexes.1.1.1.1.1.1.1.0 h.no_attempts.0)
              (create_index-Frames base _ h.no_indexes.1.1.1.1.1.1.1.1.0 h.no_attempts.0))))

  audit_downgrade-Frames : Frames base audit_downgrade
  unfolding audit_downgrade
  audit_downgrade-Frames =
      Frames-bind base _ _ (drop_index-Frames base _ h.no_indexes.1.1.1.1.1.1.1.1.0) (
        Frames-bind base _ _ (drop_index-Frames base _ h.no_indexes.1.1.1.1.1.1.1.0) (
          Frames-bind base _ _ (drop_index-Frames base _ h.no_indexes.1.1.1.1.1.1.0) (
            Frames-bind base _ _ (drop_index-Frames base _ h.no_indexes.1.1.1.1.1.0)
              (drop_table-Frames base _ h.no_attempts.0 h.no_attempts.1 h.no_attempts.2))))

  initial_downgrade-Frames : Frames base initial_downgrade
  unfolding initial_downgrade
  initial_downgrade-Frames =
      Frames-bind base _ _ (drop_index-Frames base _ h.no_indexes.1.1.1.1.0) (
        Frames-bind base _ _ (drop_index-Frames base _ h.no_indexes.1.1.1.0) (
          Frames-bind base _ _ (drop_index-Frames base _ h.no_indexes.1.1.0) (
            Frames-bind base _ _ (drop_index-Frames base _ h.no_indexes.1.0) (
              Frames-bind base _ _ (drop_index-Frames base _ h.no_indexes.0)
                (drop_table-Frames base _ h.no_executions.0 h.no_executions.1 h.no_executions.2)))))

  upgrades : upgrade_head (over base empty) ≡ (ok tt, over base head)
  upgrades =
      (Frames-bind base _ _ initial_upgrade-Frames audit_upgrade-Frames).at empty head upgrade_own

  downgrades : downgrade_base (over base head) ≡ (ok tt, over base left_type)
  downgrades =
      (Frames-bind base _ _ audit_downgrade-Frames initial_downgrade-Frames).at head left_type
        downgrade_own

over-empty : (base : Schema) → over base empty ≡ base
over-empty base = λ i. record {
  types = append-nil base.types i;
  tables = append-nil base.tables i;
  indexes = append-nil base.indexes i;
}

refused :
    (base : Schema)
    → IsFresh base
    → upgrade_head (over base left_type) ≡ (err (failure "DuplicateObject"), over base left_type)
unfolding initial_upgrade create_table provide_types provide_type create_type gets modify pure raise
    ◌>>=◌
refused base h =
    rw (any-append _ base.tables [] h.no_executions.0)
      (rw (any-append _ base.types left_type.types h.no_type) refl)

-- In a schema that has none of their objects, both migrations succeed and add their tables and
-- indexes and the type `taskstatus`; both downgrades succeed after them and bring back the tables and
-- the indexes that were there; and the type is left.
pub upgrade_head-downgrade_base :
    (base : Schema)
    → IsFresh base
    → (upgrade_head base ≡ (ok tt, over base head))
      × (downgrade_base (over base head)
          ≡ (ok tt, record base { types = base.types ++ left_type.types }))
upgrade_head-downgrade_base base h = (
  ap upgrade_head (sym (over-empty base)) ∙ upgrades base h,
  downgrades base h ∙ λ i. (
    ok tt,
    record base {
      types = base.types ++ left_type.types;
      tables = append-nil base.tables i;
      indexes = append-nil base.indexes i;
    },
  ),
)

-- After an upgrade and a downgrade of both migrations another upgrade raises, since the type is
-- there, and changes nothing.
pub upgrade_head_again :
    (base : Schema)
    → IsFresh base
    → let left = (downgrade_base (upgrade_head base).1).1 in
      upgrade_head left ≡ (err (failure "DuplicateObject"), left)
upgrade_head_again base h =
    rw (upgrade_head-downgrade_base base h).0 (rw (downgrades base h) (refused base h))
