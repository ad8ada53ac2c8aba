-- ===== src/Migrations/Versioned.antt =====
-- The first run of the migrations in a database, which Alembic gives its table of revisions.
use worker_template.Prelude.{◌≡◌, ◌∙◌, Bool, false, [], ◌∷◌, ◌++◌}
use worker_template.Exec.{ok, pure, raise, gets, modify, ◌>>=◌}
use worker_template.Migrations.{Schema, Table, has_table, create_table}
use worker_template.Migrations.Ddl.{any, provide_types, provide_type, check_references}
use worker_template.Migrations.Framed.{over, any-append}
use worker_template.Migrations.RoundTrip.{IsFresh, upgrade_head, head, upgrade_head-downgrade_base}
use worker_template.Migrations.Environment.{version_table, Alembic}

-- The schema with the table of revisions.
abbrev pub versioned : Schema → Schema
versioned base = record base { tables = base.tables ++ version_table ∷ [] }

pub versioned-IsFresh : (base : Schema) → IsFresh base → IsFresh (versioned base)
versioned-IsFresh base fresh =
    let none_of = λ (p : Table → Bool) (h : any p base.tables ≡ false).
      any-append p base.tables (version_table ∷ []) h in
    record {
      no_type = fresh.no_type;
      no_executions =
          (none_of _ fresh.no_executions.0, none_of _ fresh.no_executions.1, fresh.no_executions.2);
      no_attempts =
          (none_of _ fresh.no_attempts.0, none_of _ fresh.no_attempts.1, fresh.no_attempts.2);
      no_indexes = fresh.no_indexes;
    }

-- The first run of the migrations through Alembic.
pub runs_first :
    (alembic : Alembic) (base : Schema)
    → IsFresh base
    → has_table version_table.name base ≡ false
    → alembic.run_migrations upgrade_head base ≡ (ok tt, over (versioned base) head)
unfolding create_table provide_types provide_type check_references gets modify pure raise ◌>>=◌
runs_first alembic base fresh unversioned =
    alembic.starts upgrade_head base unversioned
    ∙ rw unversioned (upgrade_head-downgrade_base (versioned base) (versioned-IsFresh base fresh)).0
