-- ===== src/Engine/Statements/Execute/Reach.antt =====
-- The databases are sound after any sequence of queries.
use dbms_project_sp.Base.{ℕ, ◌+◌, ◌^◌, ◌<◌, refl, inl, Bool, length, Bytes, arith, Result, ok, err}
use dbms_project_sp.Base.Dict.{AllValues, AllValues-both}
use dbms_project_sp.Base.Action.{Leads, resume}
use dbms_project_sp.Sql.Ast.{Command}
use dbms_project_sp.Storage.Table.{IndexOps}
use dbms_project_sp.Storage.Dbms.{Dbms, new_dbms}
use dbms_project_sp.Engine.Errors.{QueryError}
use dbms_project_sp.Engine.Comparison.{Regex}
use dbms_project_sp.Engine.Statements.{insert_all, update_all, delete_all}
use dbms_project_sp.Engine.Statements.Tables.{
  HasRoom, insert_all-HasRoom, update_all-HasRoom, delete_all-HasRoom,
}
use dbms_project_sp.Engine.Statements.Execute.{
  QueryEngine, Disk, on_table, execute_command, execute, execute_insert, execute_update,
  execute_delete, read_command,
}
use dbms_project_sp.Engine.Statements.Execute.Sound.{IsDbms}
use dbms_project_sp.Engine.Statements.Execute.Steps.{
  Sound, on_table-Leads, then_finish, create_database-Keeps, drop_database-Keeps,
  use_database-Keeps, create_table-Keeps, drop_table-Keeps, select-Keeps,
}

-- The rows that a command may add to a table.
abbrev pub new_rows : Command → ℕ
new_rows (Command.insert r names rows) = length rows
new_rows _ = 0

abbrev pub rows_of : {E : Type 0} → Result (QueryError E) Command → ℕ
rows_of (ok c) = new_rows c
rows_of (err e) = 0

-- Every table has ids left for `n` rows.
abbrev pub HasIds : {I : Type 0} → ℕ → Dbms I → Type 0
HasIds n d = AllValues (AllValues (λ t. t.next_id + n < 2 ^ 64)) d.databases

grown : {I : Type 0} (n : ℕ) (d : Dbms I) → HasIds n d → IsDbms 0 d → IsDbms n d
grown {I} n d room w = record {
  tables =
      AllValues-both (AllValues (HasRoom {I = I} 0)) _ (AllValues (HasRoom n)) d.databases
        (λ db. AllValues-both (HasRoom 0) _ (HasRoom n) db (λ t h k. (h.0, k))) w.tables room;
  unique = w.unique;
  in_use = w.in_use;
}

module _ {D I E : Type 0} (ops : IndexOps I E) (disk : Disk D I E) (regex : Regex) where
  execute_command-Leads :
      (c : Command)
      → Leads
          (Sound ops disk regex (new_rows c))
          (Sound ops disk regex 0)
          (execute_command ops disk regex c)
  unfolding execute_command execute_insert execute_update execute_delete
  execute_command-Leads (Command.insert r names rows) =
      then_finish ops disk regex (length rows) (on_table r (insert_all ops names rows)) (
        on_table-Leads ops disk regex (length rows) 0 r (insert_all ops names rows) (omega arith)
          (insert_all-HasRoom ops names rows))
  execute_command-Leads (Command.create_database name) = create_database-Keeps ops disk regex name
  execute_command-Leads (Command.drop_database name) = drop_database-Keeps ops disk regex name
  execute_command-Leads (Command.use_database name) = use_database-Keeps ops disk regex name
  execute_command-Leads (Command.create_table r columns) =
      create_table-Keeps ops disk regex r columns
  execute_command-Leads (Command.drop_table r) = drop_table-Keeps ops disk regex r
  execute_command-Leads (Command.update r assignments where_) =
      then_finish ops disk regex 0 (on_table r (update_all ops regex assignments where_)) (
        on_table-Leads ops disk regex 0 0 r (update_all ops regex assignments where_) (omega arith)
          (update_all-HasRoom ops regex assignments where_))
  execute_command-Leads (Command.delete r where_) =
      then_finish ops disk regex 0 (on_table r (delete_all ops regex where_)) (
        on_table-Leads ops disk regex 0 0 r (delete_all ops regex where_) (omega arith)
          (delete_all-HasRoom ops regex where_))
  execute_command-Leads (Command.select r star columns where_) =
      select-Keeps ops disk regex r star columns where_

  read-Sound :
      (parsed : Result (QueryError E) Command) (e : QueryEngine D I)
      → IsDbms (rows_of parsed) e.dbms
      → IsDbms 0 (resume parsed (execute_command ops disk regex) e).0.dbms
  read-Sound (ok c) e w = execute_command-Leads c e w
  read-Sound (err x) e w = w

  -- The states that queries lead to from a new data directory, with whatever it is that the file
  -- system does.
  pub data Reachable : QueryEngine D I → Type 0 where
    start :
        (d : D)
        → Reachable (record { dbms = new_dbms; disk = d; last_select_used_index = Bool.false })
    step :
        (e : QueryEngine D I) (query : Bytes)
        → HasIds (rows_of {E = E} (read_command query)) e.dbms
        → Reachable e
        → Reachable (execute ops disk regex query e).0

  -- After any sequence of queries, whatever they are and wherever they throw, and whatever the
  -- indexes and the file system do, every table is well formed, the names of the databases are
  -- unique and the database in use is one of them, as long as no table runs out of row ids.
  pub Reachable-IsDbms : (e : QueryEngine D I) → Reachable e → IsDbms 0 e.dbms
  unfolding execute
  Reachable-IsDbms _ (start d) = record { tables = tt; unique = tt; in_use = inl refl }
  Reachable-IsDbms _ (step e query room r) =
      read-Sound (read_command query) e (grown _ e.dbms room (Reachable-IsDbms e r))
