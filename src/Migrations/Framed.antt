-- ===== src/Migrations/Framed.antt =====
-- An operation that succeeds on the objects that a migration knows does the same in a schema with
-- other objects beside them.
use worker_template.Prelude.{
  String, ◌≡◌, refl, ap, Bool, true, false, not, ◌||◌, List, [], ◌∷◌, ◌++◌, str_eq, arith, filter,
  All,
}
use mathlib.Core.List.{append_assoc}
use mathlib.Core.Path.{ap₂}
use worker_template.Exec.{Result, continue, ok, err, pure, raise, gets, modify, ◌>>=◌, ◌>>◌}
use worker_template.Migrations.{
  Schema, Table, Index, Column, ForeignKey, ColumnType, uuid, timestamp, integer, jsonb, string,
  enum, Migration, create_table, create_index, drop_index, drop_table,
}
use worker_template.Migrations.Ddl.{
  any, has_type, has_table, has_index, demand, create_type, provide_type, provide_types,
  check_references, refers_to,
}

-- The objects of both.
abbrev pub over : Schema → Schema → Schema
over base own = record {
  types = base.types ++ own.types;
  tables = base.tables ++ own.tables;
  indexes = base.indexes ++ own.indexes;
}

pub record Frames (base : Schema) (m : Migration) : Type 0 where
  pub at : (own own' : Schema) → m own ≡ (ok tt, own') → m (over base own) ≡ (ok tt, over base own')

-- Where a chain returned, its parts did.
split :
    (n : Migration) (own' : Schema) (r : Result (Unit {0}) × Schema)
    → continue r (λ _. n) ≡ (ok tt, own')
    → (r ≡ (ok tt, r.1)) × (n r.1 ≡ (ok tt, own'))
split n own' (ok tt, s) e = (refl, e)
split n own' (err x, s) e = cc

module _ (base : Schema) where
  pub Frames-bind : (m n : Migration) → Frames base m → Frames base n → Frames base (m >> n)
  unfolding ◌>>=◌
  Frames-bind m n h k = record {
    at = λ own own' e.
        let parts = split n own' (m own) e in
        rw (h.at own (m own).1 parts.0) (k.at (m own).1 own' parts.1);
  }

  pub Frames-pure : Frames base (pure tt)
  unfolding pure
  Frames-pure = record { at = λ own own' e. cc }

  -- A test that does not see the objects of `base`.
  pub Frames-gets :
      (test : Schema → Bool) (k : Bool → Migration)
      → ((own : Schema) → test (over base own) ≡ test own)
      → ((b : Bool) → Frames base (k b))
      → Frames base (gets test >>= k)
  unfolding gets ◌>>=◌
  Frames-gets test k same h = record {
    at = λ own own' e. rw (same own) ((h (test own)).at own own' e);
  }

  pub Frames-demand : (b : Bool) (message : String) → Frames base (demand b message)
  unfolding pure raise
  Frames-demand true message = record { at = λ own own' e. cc }
  Frames-demand false message = record { at = λ own own' e. cc }

  pub Frames-modify :
      (f : Schema → Schema)
      → ((own : Schema) → f (over base own) ≡ over base (f own))
      → Frames base (modify f)
  unfolding modify
  Frames-modify f same = record { at = λ own own' e. rw (same own) (cc e) }

pub any-append :
    {A : Type 0} (p : A → Bool) (xs ys : List A) → any p xs ≡ false → any p (xs ++ ys) ≡ any p ys
any-append p [] ys h = refl
any-append p (x ∷ xs) ys h = ground (arith, any-append p xs ys)

-- A row that no test of the others passes stays the only one.
filter-none :
    {A : Type 0} (p : A → Bool) (xs ys : List A)
    → any p xs ≡ false
    → filter (λ x. not (p x)) (xs ++ ys) ≡ xs ++ filter (λ x. not (p x)) ys
filter-none p [] ys h = refl
filter-none p (x ∷ xs) ys h = ground (arith, filter-none p xs ys)

-- The operations.
module _ (base : Schema) where
  pub create_type-Frames :
      (name : String) (labels : List String)
      → has_type name base ≡ false
      → Frames base (create_type name labels)
  unfolding create_type
  create_type-Frames name labels absent =
      Frames-gets base (has_type name) _ (λ own. any-append _ base.types own.types absent)
        λ b. Frames-bind base _ _ (Frames-demand base (not b) "DuplicateObject") (
          Frames-modify base _ λ own.
            ap (λ l. record (over base own) { types = l }) (append_assoc base.types own.types _))

  -- The types that the columns need are not in `base`.
  abbrev pub IsUntyped : ColumnType → Type 0
  IsUntyped (enum name labels creates) = has_type name base ≡ false
  IsUntyped _ = Unit

  provide_type-Frames : (type : ColumnType) → IsUntyped type → Frames base (provide_type type)
  unfolding provide_type
  provide_type-Frames (enum name labels true) h = create_type-Frames name labels h
  provide_type-Frames (enum name labels false) h =
      Frames-gets base (has_type name) _ (λ own. any-append _ base.types own.types h)
        λ b. Frames-demand base b "UndefinedObject"
  provide_type-Frames uuid h = Frames-pure base
  provide_type-Frames timestamp h = Frames-pure base
  provide_type-Frames integer h = Frames-pure base
  provide_type-Frames jsonb h = Frames-pure base
  provide_type-Frames (string n) h = Frames-pure base

  provide_types-Frames :
      (columns : List Column)
      → All (λ c. IsUntyped c.type) columns
      → Frames base (provide_types columns)
  unfolding provide_types
  provide_types-Frames [] h = Frames-pure base
  provide_types-Frames (c ∷ columns) h =
      Frames-bind base _ _ (provide_type-Frames c.type h.0) (provide_types-Frames columns h.1)

  check_references-Frames :
      (name : String) (keys : List ForeignKey)
      → All (λ k. has_table k.table base ≡ false) keys
      → Frames base (check_references name keys)
  unfolding check_references
  check_references-Frames name [] h = Frames-pure base
  check_references-Frames name (k ∷ keys) h =
      Frames-gets base (has_table k.table) _ (λ own. any-append _ base.tables own.tables h.0)
        λ b.
          Frames-bind base _ _ (Frames-demand base (str_eq k.table name || b) "UndefinedTable")
            (check_references-Frames name keys h.1)

  pub create_table-Frames :
      (t : Table)
      → has_table t.name base ≡ false
      → All (λ c. IsUntyped c.type) t.columns
      → All (λ k. has_table k.table base ≡ false) t.foreign_keys
      → Frames base (create_table t)
  unfolding create_table
  create_table-Frames t absent types keys =
      Frames-gets base (has_table t.name) _ (λ own. any-append _ base.tables own.tables absent)
        λ b. Frames-bind base _ _ (Frames-demand base (not b) "DuplicateTable") (
          Frames-bind base _ _ (provide_types-Frames t.columns types) (
            Frames-bind base _ _ (check_references-Frames t.name t.foreign_keys keys) (
              Frames-modify base _ λ own.
                ap (λ l. record (over base own) { tables = l })
                  (append_assoc base.tables own.tables _))))

  pub create_index-Frames :
      (i : Index)
      → has_index i.name base ≡ false
      → has_table i.table base ≡ false
      → Frames base (create_index i)
  unfolding create_index
  create_index-Frames i absent other =
      Frames-gets base (has_index i.name) _ (λ own. any-append _ base.indexes own.indexes absent)
        λ b. Frames-bind base _ _ (Frames-demand base (not b) "DuplicateTable") (
          Frames-gets base (has_table i.table) _ (λ own. any-append _ base.tables own.tables other)
            λ c. Frames-bind base _ _ (Frames-demand base c "UndefinedTable") (
              Frames-modify base _ λ own.
                ap (λ l. record (over base own) { indexes = l })
                  (append_assoc base.indexes own.indexes _)))

  pub drop_index-Frames :
      (name : String) → has_index name base ≡ false → Frames base (drop_index name)
  unfolding drop_index
  drop_index-Frames name absent =
      Frames-gets base (has_index name) _ (λ own. any-append _ base.indexes own.indexes absent)
        λ b. Frames-bind base _ _ (Frames-demand base b "UndefinedObject") (
          Frames-modify base _ λ own.
            ap (λ l. record (over base own) { indexes = l })
              (filter-none _ base.indexes own.indexes absent))

  pub drop_table-Frames :
      (name : String)
      → has_table name base ≡ false
      → any (refers_to name) base.tables ≡ false
      → any (λ i. str_eq i.table name) base.indexes ≡ false
      → Frames base (drop_table name)
  unfolding drop_table
  drop_table-Frames name absent unneeded unindexed =
      Frames-gets base (has_table name) _ (λ own. any-append _ base.tables own.tables absent)
        λ b. Frames-bind base _ _ (Frames-demand base b "UndefinedTable") (
          Frames-gets base _ _ (λ own. any-append _ base.tables own.tables unneeded)
            λ c. Frames-bind base _ _ (Frames-demand base (not c) "DependentObjectsStillExist") (
              Frames-modify base _ λ own.
                ap₂ (λ l m. record (over base own) { tables = l; indexes = m })
                  (filter-none _ base.tables own.tables absent)
                  (filter-none _ base.indexes own.indexes unindexed)))
