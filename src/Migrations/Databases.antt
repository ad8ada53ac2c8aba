-- ===== src/Migrations/Databases.antt =====
-- Databases by their URLs, and a transaction on one of them.
use worker_template.Prelude.{String, ◌≡◌, arith, str_eq, if◌then◌else◌}
use worker_template.Exec.{Result, ok, err, Exec}
use worker_template.Migrations.{Schema, Migration}

abbrev pub Databases : Type 0
Databases = String → Schema

abbrev pub with_schema : String → Schema → Databases → Databases
with_schema url s databases other = if str_eq other url then s else databases other

abbrev pub end_transaction :
    String → Databases → Result (Unit {0}) × Schema → Result (Unit {0}) × Databases
end_transaction url databases (ok tt, s) = (ok tt, with_schema url s databases)
end_transaction url databases (err e, s) = (err e, databases)

-- A block in a transaction of its own: its changes are there where it returns, and none where it
-- raises.
unfoldable pub transaction : String → Migration → Exec Databases (Unit {0})
transaction url block databases = end_transaction url databases (block (databases url))

pub transaction_returns :
    (url : String) (block : Migration) (databases : Databases)
    → (block (databases url)).0 ≡ ok tt
    → transaction url block databases ≡ (ok tt, with_schema url (block (databases url)).1 databases)
unfolding transaction
transaction_returns url block databases e = ground (arith, e)
