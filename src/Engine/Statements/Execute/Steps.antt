-- ===== src/Engine/Statements/Execute/Steps.antt =====
-- Each statement keeps the databases sound.
use dbms_project_sp.Base.{
  ℕ, suc, ◌≤◌, ◌≡◌, refl, subst, inl, inr, Bool, List, [], ◌∷◌, Option, none, some, length, ltb,
  Bytes, Option-cases, both_branches, arith, Result, ok, err,
}
use dbms_project_sp.Base.Dict.{
  find, put, AllValues, AllValues-put, AllValues-map, AllValues-drop_key,
}
use dbms_project_sp.Base.Action.{Leads, Keeps, bind-Keeps, bind-Leads, resume, pure, ◌>>=◌}
use dbms_project_sp.Sql.Ast
use dbms_project_sp.Sql.Ast.{Command, TableRef}
use dbms_project_sp.Storage.Schema.{ColumnDef, TableSchema}
use dbms_project_sp.Storage.Table.{Table, IndexOps, lookup}
use dbms_project_sp.Storage.Table.Invariant.{with_indexes-IsTable}
use dbms_project_sp.Storage.Dbms.{
  Database, Dbms, DbmsError, empty_table, create_database, drop_database, use_database,
  create_table, drop_table, require_table,
}
use dbms_project_sp.Engine.Errors.{QueryError}
use dbms_project_sp.Engine.Comparison.{Regex}
use dbms_project_sp.Engine.Statements.{TableAction, build_schema, select_text}
use dbms_project_sp.Engine.Statements.Tables.{HasRoom, HasRoom-fewer}
use dbms_project_sp.Engine.Statements.Execute.{
  QueryEngine, EngineAction, Disk, lift_dbms, lift_schema, resolve_database, put_database, reads,
  on_table, on_dbms, on_disk, save, finish, attach_at, note_index, execute_create_database,
  execute_drop_database, execute_use_database, execute_create_table, execute_drop_table,
  execute_select,
}
use dbms_project_sp.Engine.Statements.Execute.Attach.{
  attach_index, attach_made, attach_column, has_index, attach_indexes,
}
use dbms_project_sp.Engine.Statements.Execute.Sound.{
  IsDbms, IsDbms-fewer, put_database-IsDbms, create_database-IsDbms, use_database-IsDbms,
  drop_database-IsDbms, resolve-tables, require_table-HasRoom,
}

module _ {I E : Type 0} (ops : IndexOps I E) where
  attach_index-HasRoom :
      (n column : ℕ) (index : I) (t : Table I)
      → HasRoom n t
      → HasRoom n (attach_index ops column index t).0
  unfolding attach_index
  attach_index-HasRoom n column index t h =
      both_branches (λ (r : Table I × Result (QueryError E) (Unit {0})). HasRoom n r.0)
        (ltb column (length t.schema.columns)) _ _ (with_indexes-IsTable ops _ t h.0, h.1) h

  module _ {D : Type 0} (n : ℕ) (make_index : ColumnDef → D → D × Result E I) where
    attach_made-HasRoom :
        (i : ℕ) (made : D × Result E I) (t : Table I)
        → HasRoom n t
        → HasRoom n (attach_made ops make_index i made t).0.0
    attach_made-HasRoom i (disk, err e) t h = h
    attach_made-HasRoom i (disk, ok index) t h = attach_index-HasRoom n i index t h

    attach_column-HasRoom :
        (col : ColumnDef) (i : ℕ)
        → Keeps (λ (s : Table I × D). HasRoom n s.0) (attach_column ops make_index col i)
    unfolding attach_column
    attach_column-HasRoom col i (t, disk) h =
        both_branches left col.indexed _ _
          (both_branches left (has_index ops make_index (lookup i t.indexes)) _ _ h
            (attach_made-HasRoom i (make_index col disk) t h))
          h
      where
        left : (Table I × D) × Result (QueryError E) (Unit {0}) → Type 0
        left r = HasRoom n r.0.0

    attach_indexes-HasRoom :
        (cols : List ColumnDef) (i : ℕ)
        → Keeps (λ (s : Table I × D). HasRoom n s.0) (attach_indexes ops make_index cols i)
    unfolding attach_indexes
    attach_indexes-HasRoom [] i = λ s h. h
    attach_indexes-HasRoom (col ∷ cols) i =
        bind-Keeps (λ (s : Table I × D). HasRoom n s.0) (attach_column ops make_index col i) _
          (attach_column-HasRoom col i) (λ _. attach_indexes-HasRoom cols (suc i))

lifted : {E A : Type 0} (r : Result DbmsError A) {a : A} → lift_dbms {E = E} r ≡ ok a → r ≡ ok a
lifted (ok a) p = ground arith
lifted (err x) p = absurd (ground arith)

module _ {D I E : Type 0} (Q : QueryEngine D I → Type 0) where
  resume-Ends :
      {A B : Type 0} (r : Result (QueryError E) A) (k : A → EngineAction D I E B)
      (e : QueryEngine D I)
      → Q e
      → ((a : A) → r ≡ ok a → Q (k a e).0)
      → Q (resume r k e).0
  resume-Ends (ok a) k e q h = h a refl
  resume-Ends (err x) k e q h = q

  reads-Ends :
      {A B : Type 0} (f : Dbms I → Result DbmsError A) (k : A → EngineAction D I E B)
      (e : QueryEngine D I)
      → Q e
      → ((a : A) → f e.dbms ≡ ok a → Q (k a e).0)
      → Q ((reads f >>= k) e).0
  reads-Ends f k e q h =
      resume-Ends (lift_dbms (f e.dbms)) k e q (λ a p. h a (lifted {E = E} (f e.dbms) p))

new_table-HasRoom : {I : Type 0} (s : TableSchema) → HasRoom {I = I} 0 (empty_table s)
new_table-HasRoom s =
    (record { same_ids = refl; ascending = tt; below = tt; fit = tt }, omega arith)

module _ {D I E : Type 0} (ops : IndexOps I E) (disk : Disk D I E) (regex : Regex) where
  abbrev pub Sound : ℕ → QueryEngine D I → Type 0
  Sound n e = IsDbms n e.dbms

  finish-Keeps : Keeps (Sound 0) (finish {D = D} {I = I} {E = E} ops disk regex)
  finish-Keeps e w =
      bind-Keeps (Sound 0) (save ops disk regex) (λ _. pure _) (λ e w. w) (λ _ e w. w) e w

  pub on_table-Leads :
      {A : Type 0} (n m : ℕ) (r : TableRef) (action : TableAction I E A)
      → m ≤ n
      → Leads (HasRoom n) (HasRoom m) action
      → Leads (Sound n) (Sound m) (on_table r action)
  unfolding on_table
  on_table-Leads n m r action l h e w =
      let less_room : Sound m e = IsDbms-fewer m n e.dbms l w in
      reads-Ends (Sound m) (resolve_database r.db_name) _ e less_room (λ found at_database.
        resume-Ends (Sound m) (lift_dbms (require_table r.table_name found.1)) _ e less_room
          (λ t at_table.
            let tables = resolve-tables n r.db_name e.dbms w at_database in
            let room =
              require_table-HasRoom n r.table_name found.1 tables (lifted {E = E} _ at_table) in
            put_database-IsDbms m found.0 (put r.table_name (action t).0 found.1) e.dbms
              (AllValues-put (HasRoom m) r.table_name (action t).0 found.1 (h t room)
                (AllValues-map (HasRoom n) (HasRoom m) found.1 (λ t. HasRoom-fewer m n t l) tables))
              less_room))

  pub then_finish :
      (n : ℕ) {A : Type 0} (m : EngineAction D I E A)
      → Leads (Sound n) (Sound 0) m
      → Leads (Sound n) (Sound 0) (m >>= λ _. finish ops disk regex)
  then_finish n m h = bind-Leads (Sound n) (Sound 0) (Sound 0) m _ (λ e w. w) h (λ _. finish-Keeps)

  pub create_database-Keeps :
      (name : Bytes) → Keeps (Sound 0) (execute_create_database ops disk regex name)
  unfolding execute_create_database
  create_database-Keeps name =
      bind-Keeps (Sound 0) (on_dbms (create_database name)) _
        (λ e w. create_database-IsDbms 0 name e.dbms w)
        (λ _. then_finish 0 (on_disk (disk.make_directory name)) (λ e w. w))

  pub drop_database-Keeps :
      (name : Bytes) → Keeps (Sound 0) (execute_drop_database ops disk regex name)
  unfolding execute_drop_database
  drop_database-Keeps name =
      bind-Keeps (Sound 0) (on_dbms (drop_database name)) _
        (λ e w. drop_database-IsDbms 0 name e.dbms w)
        (λ _. then_finish 0 (on_disk (λ d. (disk.remove_directory name d, ok tt))) (λ e w. w))

  pub use_database-Keeps :
      (name : Bytes) → Keeps (Sound 0) (execute_use_database ops disk regex name)
  unfolding execute_use_database
  use_database-Keeps name =
      bind-Keeps (Sound 0) (on_dbms (use_database name)) (λ _. pure _)
        (λ e w. use_database-IsDbms 0 name e.dbms w) (λ _ e w. w)

  created-tables :
      (name : Bytes) (s : TableSchema) (db : Database I) {db' : Database I}
      → AllValues (HasRoom 0) db
      → create_table name s db ≡ ok db'
      → AllValues (HasRoom 0) db'
  unfolding create_table
  created-tables name s db h e = elim (Option-cases (find name db)) [
    | inl k ↦
        subst (AllValues (HasRoom 0)) (ground (arith, rw (k, create_table) at e))
          (AllValues-put (HasRoom 0) name (empty_table s) db (new_table-HasRoom s) h)
    | inr (t, k) ↦ absurd (ground (arith, rw (k, create_table) at e))
  ]

  dropped-tables :
      (name : Bytes) (db : Database I) {db' : Database I}
      → AllValues (HasRoom 0) db
      → drop_table name db ≡ ok db'
      → AllValues (HasRoom 0) db'
  unfolding drop_table
  dropped-tables name db h e = elim (Option-cases (find name db)) [
    | inl k ↦ absurd (ground (arith, rw (k, drop_table) at e))
    | inr (t, k) ↦
        subst (AllValues (HasRoom 0)) (ground (arith, rw (k, drop_table) at e))
          (AllValues-drop_key (HasRoom 0) name db h)
  ]

  attach_at-Sound :
      (db_name table_name : Bytes) (db : Database I) (t : Table I)
      → AllValues (HasRoom 0) db
      → HasRoom 0 t
      → Keeps (Sound 0) (attach_at ops disk regex db_name table_name db t)
  attach_at-Sound db_name table_name db t h room e w =
      put_database-IsDbms 0 db_name (put table_name _ db) e.dbms
        (AllValues-put (HasRoom 0) table_name _ db
          (attach_indexes-HasRoom ops 0 (disk.make_index db_name table_name) t.schema.columns 0
            (t, e.disk) room)
          h)
        w

  pub create_table-Keeps :
      (r : TableRef) (columns : List Ast.ColumnDef)
      → Keeps (Sound 0) (execute_create_table ops disk regex r columns)
  unfolding execute_create_table
  create_table-Keeps r columns e w =
      reads-Ends (Sound 0) (resolve_database r.db_name) _ e w (λ found at_database.
        resume-Ends (Sound 0) (lift_schema (build_schema columns)) _ e w (λ s built.
          resume-Ends (Sound 0) (lift_dbms (create_table r.table_name s found.1)) _ e w
            (λ db created.
              let tables =
                created-tables r.table_name s found.1
                  (resolve-tables 0 r.db_name e.dbms w at_database) (lifted {E = E} _ created) in
              then_finish 0 (attach_at ops disk regex found.0 r.table_name db (empty_table s))
                (attach_at-Sound found.0 r.table_name db (empty_table s) tables
                  (new_table-HasRoom s))
                e w)))

  pub drop_table-Keeps : (r : TableRef) → Keeps (Sound 0) (execute_drop_table ops disk regex r)
  unfolding execute_drop_table
  drop_table-Keeps r e w =
      reads-Ends (Sound 0) (resolve_database r.db_name) _ e w (λ found at_database.
        resume-Ends (Sound 0) (lift_dbms (drop_table r.table_name found.1)) _ e w (λ db dropped.
          let tables =
            dropped-tables r.table_name found.1 (resolve-tables 0 r.db_name e.dbms w at_database)
              (lifted {E = E} _ dropped) in
          then_finish 0 (on_dbms (λ d. (put_database found.0 db d, ok tt)))
            (λ e w. put_database-IsDbms 0 found.0 db e.dbms tables w) e w))

  pub select-Keeps :
      (r : TableRef) (star : Bool) (columns : List Ast.SelectColumn) (where_ : Option Ast.Condition)
      → Keeps (Sound 0) (execute_select ops disk regex r star columns where_)
  unfolding execute_select
  select-Keeps r star columns where_ e w =
      reads-Ends (Sound 0) (resolve_database r.db_name) _ e w (λ found at_database.
        resume-Ends (Sound 0) (lift_dbms (require_table r.table_name found.1)) _ e w
          (λ t at_table. noted (select_text ops regex star columns where_ t).1 e w))
    where
      noted :
          (used : Option Bool)
          → (e : QueryEngine D I) → Sound 0 e
          → Sound 0 (note_index ops disk regex used e)
      noted none e w = w
      noted (some used) e w = w
