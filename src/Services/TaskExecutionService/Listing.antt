-- ===== src/Services/TaskExecutionService/Listing.antt =====
-- What the listings return.
use mathlib.Core.List.{Permᴰ}
use mathlib.Core.List.Permᴰ as PermD
use worker_template.Prelude.{
  ℕ, zero, suc, ◌≤◌, ◌≡◌, refl, Bool, true, Option, none, some, List, [], ◌∷◌, arith, length,
  filter, All, All-filter, All-take, All-drop, take, drop, length-take-le, inl, inr, Bool-cases,
}
use worker_template.Exec.{Result, ok, err, gets, ◌>>=◌}
use worker_template.Models.{Uuid, TaskStatus, TaskExecution, status_eq_iff}
use worker_template.World.{Outcome, fine, fault, late, World, effect, execute}
use worker_template.Services.TaskExecutionService.{
  insert_by, order_by, newest_first, is_of_tenant, list_task_executions,
}

module _ (first : TaskExecution → TaskExecution → Bool) where
  All-insert_by :
      (P : TaskExecution → Type 0) (row : TaskExecution) (rows : List TaskExecution)
      → P row
      → All P rows
      → All P (insert_by first row rows)
  unfolding insert_by
  All-insert_by P row [] p h = (p, tt)
  All-insert_by P row (other ∷ rows) p h = elim (Bool-cases (first other row)) [
    | inl before ↦ rw before (h.0, All-insert_by P row rows p h.1)
    | inr after ↦ rw after (p, h)
  ]

  All-order_by :
      (P : TaskExecution → Type 0) (rows : List TaskExecution)
      → All P rows
      → All P (order_by first rows)
  unfolding order_by
  All-order_by P [] h = tt
  All-order_by P (row ∷ rows) h =
      All-insert_by P row (order_by first rows) h.0 (All-order_by P rows h.1)

-- From the newest row to the oldest.
abbrev pub IsNewestFirst : List TaskExecution → Type 0
IsNewestFirst [] = Unit
IsNewestFirst (row ∷ rows) =
    All (λ other. other.created_at ≤ row.created_at) rows × IsNewestFirst rows

All-mono :
    (P Q : TaskExecution → Type 0) (rows : List TaskExecution)
    → ((row : TaskExecution) → P row → Q row)
    → All P rows
    → All Q rows
All-mono P Q [] f h = tt
All-mono P Q (row ∷ rows) f h = (f row h.0, All-mono P Q rows f h.1)

insert_by-IsNewestFirst :
    (row : TaskExecution) (rows : List TaskExecution)
    → IsNewestFirst rows
    → IsNewestFirst (insert_by newest_first row rows)
unfolding insert_by
insert_by-IsNewestFirst row [] h = (tt, tt)
insert_by-IsNewestFirst row (other ∷ rows) h = elim (Bool-cases (newest_first other row)) [
  | inl newer ↦ rw newer (
    All-insert_by newest_first (λ r. r.created_at ≤ other.created_at) row rows (ground arith) h.0,
    insert_by-IsNewestFirst row rows h.1,
  )
  | inr older ↦
      let behind : other.created_at ≤ row.created_at = ground arith in
      rw older (
        (
          behind,
          All-mono (λ r. r.created_at ≤ other.created_at) (λ r. r.created_at ≤ row.created_at) rows
              (λ r le. omega arith) h.0,
        ),
        h,
      )
]

order_by-IsNewestFirst : (rows : List TaskExecution) → IsNewestFirst (order_by newest_first rows)
unfolding order_by
order_by-IsNewestFirst [] = tt
order_by-IsNewestFirst (row ∷ rows) =
    insert_by-IsNewestFirst row (order_by newest_first rows) (order_by-IsNewestFirst rows)

drop-IsNewestFirst :
    (n : ℕ) (rows : List TaskExecution) → IsNewestFirst rows → IsNewestFirst (drop n rows)
drop-IsNewestFirst zero rows h = h
drop-IsNewestFirst (suc n) [] h = tt
drop-IsNewestFirst (suc n) (row ∷ rows) h = drop-IsNewestFirst n rows h.1

take-IsNewestFirst :
    (n : ℕ) (rows : List TaskExecution) → IsNewestFirst rows → IsNewestFirst (take n rows)
take-IsNewestFirst zero rows h = tt
take-IsNewestFirst (suc n) [] h = tt
take-IsNewestFirst (suc n) (row ∷ rows) h = (All-take _ n rows h.0, take-IsNewestFirst n rows h.1)

-- The status is the one that is asked for, where one is.
abbrev pub HasStatus : Option TaskStatus → TaskExecution → Type 0
HasStatus none row = Unit
HasStatus (some status) row = row.status ≡ status

of_tenant :
    (tenant_id : Uuid) (status_filter : Option TaskStatus) (row : TaskExecution)
    → is_of_tenant tenant_id status_filter row ≡ true
    → (row.tenant_id ≡ tenant_id) × HasStatus status_filter row
of_tenant tenant_id none row h = (ground arith, tt)
of_tenant tenant_id (some status) row h = ground (arith, status_eq_iff row.status status)

-- Ordering loses no row and adds none.
insert_by-Perm :
    (first : TaskExecution → TaskExecution → Bool) (row : TaskExecution) (rows : List TaskExecution)
    → Permᴰ (row ∷ rows) (insert_by first row rows)
unfolding insert_by
insert_by-Perm first row [] = PermD.refl (row ∷ [])
insert_by-Perm first row (other ∷ rows) = elim (Bool-cases (first other row)) [
  | inl before ↦
      rw before
        (Permᴰ.trans (Permᴰ.swap refl refl) (Permᴰ.cons refl (insert_by-Perm first row rows)))
  | inr after ↦ rw after (PermD.refl (row ∷ other ∷ rows))
]

order_by-Perm :
    (first : TaskExecution → TaskExecution → Bool) (rows : List TaskExecution)
    → Permᴰ rows (order_by first rows)
unfolding order_by
order_by-Perm first [] = Permᴰ.nil
order_by-Perm first (row ∷ rows) =
    Permᴰ.trans (Permᴰ.cons refl (order_by-Perm first rows))
      (insert_by-Perm first row (order_by first rows))

-- The page that a listing returns of the rows of a table: some arrangement of the matching rows runs
-- from the newest to the oldest, and the page is the stretch of it that begins at the offset and has
-- the limit's length, or less where the rows end.
pub record IsPage (tenant_id : Uuid) (status_filter : Option TaskStatus) (offset limit : ℕ)
    (table page : List TaskExecution) : Type 0 where
  pub arranged : List TaskExecution
  pub all_matching : Permᴰ (filter (is_of_tenant tenant_id status_filter) table) arranged
  pub newest_to_oldest : IsNewestFirst arranged
  pub stretch : page ≡ take limit (drop offset arranged)
  pub matching : All (λ row. (row.tenant_id ≡ tenant_id) × HasStatus status_filter row) page
  pub in_order : IsNewestFirst page
  pub bounded : length page ≤ limit

module _ (tenant_id : Uuid) (status_filter : Option TaskStatus) where
  filter_matching :
      (table : List TaskExecution)
      → All
          (λ row. (row.tenant_id ≡ tenant_id) × HasStatus status_filter row)
          (filter (is_of_tenant tenant_id status_filter) table)
  filter_matching table =
      All-mono _ _ (filter (is_of_tenant tenant_id status_filter) table)
        (λ row h. of_tenant tenant_id status_filter row h)
        (All-filter (is_of_tenant tenant_id status_filter) table)

  rows-IsPage :
      (offset limit : ℕ) (table : List TaskExecution)
      → IsPage tenant_id status_filter offset limit table (
          take limit (
            drop offset
              (order_by newest_first (filter (is_of_tenant tenant_id status_filter) table))))
  rows-IsPage offset limit table =
      let rows = filter (is_of_tenant tenant_id status_filter) table in
      let sorted = order_by newest_first rows in
      record {
        arranged = sorted;
        all_matching = order_by-Perm newest_first rows;
        newest_to_oldest = order_by-IsNewestFirst rows;
        stretch = refl;
        matching =
            All-take _ limit (drop offset sorted)
              (All-drop _ offset sorted (All-order_by newest_first _ rows (filter_matching table)));
        in_order =
            take-IsNewestFirst limit (drop offset sorted)
              (drop-IsNewestFirst offset sorted (order_by-IsNewestFirst rows));
        bounded = length-take-le limit (drop offset sorted);
      }

  -- What a listing returns in a world whose session sees the table.
  abbrev pub Lists : ℕ → ℕ → World → Result (List TaskExecution) × World → Type 0
  Lists offset limit w (ok page, w') =
      IsPage tenant_id status_filter offset limit w.tables.executions page × (w'.tables ≡ w.tables)
  Lists offset limit w (err e, w') = w'.tables ≡ w.tables

  listed :
      (offset limit : ℕ) (w : World) (outcomes : List Outcome)
      → w.schedule ≡ outcomes
      → Lists offset limit w (
          list_task_executions tenant_id status_filter offset limit
            (record w { schedule = outcomes }))
  unfolding list_task_executions execute effect gets ◌>>=◌
  listed offset limit w [] e = (rows-IsPage offset limit w.tables.executions, refl)
  listed offset limit w (fine ∷ rest) e = (rows-IsPage offset limit w.tables.executions, refl)
  listed offset limit w (fault x ∷ rest) e = refl
  listed offset limit w (late x ∷ rest) e = refl

-- A listing that returns gives a page of the rows that the session sees: the matching rows, all of
-- them and no others, can be arranged from the newest to the oldest so that the page is the stretch of
-- the arrangement from the offset on, of the limit's length or less where the rows end; so each row of
-- the page is of the tenant, and of the status where one is asked for. The tables are unchanged,
-- whether the listing returns or its query raises.
pub list_task_executions-Lists :
    (tenant_id : Uuid) (status_filter : Option TaskStatus) (offset limit : ℕ) (w : World)
    → Lists tenant_id status_filter offset limit w
        (list_task_executions tenant_id status_filter offset limit w)
list_task_executions-Lists tenant_id status_filter offset limit w =
    listed tenant_id status_filter offset limit w w.schedule refl

-- Where no call fails the listing returns.
pub list_task_executions_returns :
    (tenant_id : Uuid) (status_filter : Option TaskStatus) (offset limit : ℕ) (w : World)
    → w.schedule ≡ []
    → (page : List TaskExecution) × (list_task_executions tenant_id status_filter offset limit w
        ≡ (ok page, w))
      × IsPage tenant_id status_filter offset limit w.tables.executions page
unfolding list_task_executions execute effect gets ◌>>=◌
list_task_executions_returns tenant_id status_filter offset limit w calm =
    (_, rw calm refl, rows-IsPage tenant_id status_filter offset limit w.tables.executions)
