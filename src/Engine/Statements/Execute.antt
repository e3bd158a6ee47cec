-- ===== src/Engine/Statements/Execute.antt =====
-- `DbmsQueryEngine::execute` and its statements, executor/src/query_engine.cpp, with the indexes of
-- a new table. The file system is a state with the calls that the engine makes of it, which may
-- throw; saving is one of them.
pub mod Attach
pub mod Sound
pub mod Steps
pub mod Reach
mod Tests
use dbms_project_sp.Base.{
  ℕ, Bool, true, false, not, List, [], ◌∷◌, ◌++◌, Option, none, some, if◌then◌else◌, ◌==◌, Bytes,
  bytes_eq, codes, is_space, Result, ok, err,
}
use dbms_project_sp.Base.Dict.{put}
use dbms_project_sp.Base.Action.{Action, pure, from_result, ◌>>=◌, ◌>>◌}
use dbms_project_sp.Sql.Ast
use dbms_project_sp.Sql.Ast.{TableRef, Command, Condition, SelectColumn}
use dbms_project_sp.Sql.Token.{Token}
use dbms_project_sp.Sql.Lexer.{LexError, tokenize}
use dbms_project_sp.Sql.Cursor.{ParseError}
use dbms_project_sp.Sql.Parser.{parse}
use dbms_project_sp.Storage.Schema.{ColumnDef, TableSchema, SchemaError}
use dbms_project_sp.Storage.Table.{Table, IndexOps}
use dbms_project_sp.Storage.Dbms.{
  Database, Dbms, DbmsError, empty_table, create_database, drop_database, use_database, active_db,
  require_database, require_table, create_table, drop_table,
}
use dbms_project_sp.Engine.Errors.{
  QueryError, schema_error, dbms_error, lex_error, parse_error, disk_error,
}
use dbms_project_sp.Engine.Comparison.{Regex}
use dbms_project_sp.Engine.Statements.{
  TableAction, build_schema, insert_all, update_all, delete_all, select_text,
}
use dbms_project_sp.Engine.Statements.Execute.Attach.{attach_indexes}

-- The calls of `std::filesystem` and of the streams; `remove_all` reports no error.
pub record Disk (D I E : Type 0) : Type 0 where
  pub make_directory : Bytes → D → D × Result E (Unit {0})
  pub remove_directory : Bytes → D → D
  pub save_all : List (Bytes × Database I) → D → D × Result E (Unit {0})
  pub make_index : Bytes → Bytes → ColumnDef → D → D × Result E I

pub record QueryEngine (D I : Type 0) : Type 0 where
  pub dbms : Dbms I
  pub disk : D
  pub last_select_used_index : Bool

abbrev pub EngineAction : Type 0 → Type 0 → Type 0 → Type 0 → Type 0
EngineAction D I E A = Action (QueryEngine D I) (QueryError E) A

abbrev pub lift_dbms : {E A : Type 0} → Result DbmsError A → Result (QueryError E) A
lift_dbms (ok a) = ok a
lift_dbms (err e) = err (dbms_error e)

abbrev pub lift_schema : {E A : Type 0} → Result SchemaError A → Result (QueryError E) A
lift_schema (ok a) = ok a
lift_schema (err e) = err (schema_error e)

abbrev pub lift_disk : {E A : Type 0} → Result E A → Result (QueryError E) A
lift_disk (ok a) = ok a
lift_disk (err e) = err (disk_error e)

-- An explicit name, or the database in use; with the name it has.
unfoldable pub resolve_database :
    {I : Type 0} → Bytes → Dbms I → Result DbmsError (Bytes × Database I)
resolve_database name d =
    if bytes_eq name []
    then (elim (active_db d) [ err e ↦ err e | ok db ↦ ok (d.active, db) ])
    else (elim (require_database name d) [ err e ↦ err e | ok db ↦ ok (name, db) ])

-- A database that was changed where it stands.
abbrev pub put_database : {I : Type 0} → Bytes → Database I → Dbms I → Dbms I
put_database name db d = record d { databases = put name db d.databases }

module _ {D I E : Type 0} where
  abbrev pub on_dbms : {A : Type 0} → (Dbms I → Dbms I × Result DbmsError A) → EngineAction D I E A
  on_dbms f e = let (d, outcome) = f e.dbms in (record e { dbms = d }, lift_dbms outcome)

  abbrev pub on_disk : {A : Type 0} → (D → D × Result E A) → EngineAction D I E A
  on_disk f e = let (disk, outcome) = f e.disk in (record e { disk = disk }, lift_disk outcome)

  abbrev pub reads : {A : Type 0} → (Dbms I → Result DbmsError A) → EngineAction D I E A
  reads f e = (e, lift_dbms (f e.dbms))

  -- The table is changed where it stands, also where the action throws.
  abbrev pub on_found :
      {A : Type 0} → Bytes → Bytes → Database I → TableAction I E A → Table I → EngineAction D I E A
  on_found db_name table_name db action t e =
      let (t', outcome) = action t in
      (record e { dbms = put_database db_name (put table_name t' db) e.dbms }, outcome)

  unfoldable pub on_table : {A : Type 0} → TableRef → TableAction I E A → EngineAction D I E A
  on_table r action = do
    found ← reads (resolve_database r.db_name)
    t ← from_result (lift_dbms (require_table r.table_name found.1))
    on_found found.0 r.table_name found.1 action t

module _ {D I E : Type 0} (ops : IndexOps I E) (disk : Disk D I E) (regex : Regex) where
  abbrev pub save : EngineAction D I E (Unit {0})
  save e = on_disk (disk.save_all e.dbms.databases) e

  abbrev pub finish : EngineAction D I E Bytes
  finish = do save; pure (codes "OK")

  unfoldable pub execute_create_database : Bytes → EngineAction D I E Bytes
  execute_create_database name = do
    on_dbms (create_database name)
    on_disk (disk.make_directory name)
    finish

  unfoldable pub execute_drop_database : Bytes → EngineAction D I E Bytes
  execute_drop_database name = do
    on_dbms (drop_database name)
    on_disk (λ d. (disk.remove_directory name d, ok tt))
    finish

  unfoldable pub execute_use_database : Bytes → EngineAction D I E Bytes
  execute_use_database name = do on_dbms (use_database name); pure (codes "OK")

  -- The indexes of a table that stands in its database.
  abbrev pub attach_at : Bytes → Bytes → Database I → Table I → EngineAction D I E (Unit {0})
  attach_at db_name table_name db t e =
      let ((t', disk'), outcome) =
        attach_indexes ops (disk.make_index db_name table_name) t.schema.columns 0 (t, e.disk) in
      (
        record e { dbms = put_database db_name (put table_name t' db) e.dbms; disk = disk' },
        outcome,
      )

  unfoldable pub execute_create_table : TableRef → List Ast.ColumnDef → EngineAction D I E Bytes
  execute_create_table r columns = do
    found ← reads (resolve_database r.db_name)
    schema ← from_result (lift_schema (build_schema columns))
    db ← from_result (lift_dbms (create_table r.table_name schema found.1))
    attach_at found.0 r.table_name db (empty_table schema)
    finish

  unfoldable pub execute_drop_table : TableRef → EngineAction D I E Bytes
  execute_drop_table r = do
    found ← reads (resolve_database r.db_name)
    db ← from_result (lift_dbms (drop_table r.table_name found.1))
    on_dbms (λ d. (put_database found.0 db d, ok tt))
    finish

  unfoldable pub execute_insert :
      TableRef → List Bytes → List (List (Option Ast.SqlValue)) → EngineAction D I E Bytes
  execute_insert r names rows = do on_table r (insert_all ops names rows); finish

  unfoldable pub execute_update :
      TableRef → List Ast.Assignment → Option Condition → EngineAction D I E Bytes
  execute_update r assignments where_ = do
    on_table r (update_all ops regex assignments where_)
    finish

  unfoldable pub execute_delete : TableRef → Option Condition → EngineAction D I E Bytes
  execute_delete r where_ = do on_table r (delete_all ops regex where_); finish

  -- The flag is written once the candidates are known.
  abbrev pub note_index : Option Bool → QueryEngine D I → QueryEngine D I
  note_index none e = e
  note_index (some used) e = record e { last_select_used_index = used }

  unfoldable pub execute_select :
      TableRef → Bool → List SelectColumn → Option Condition → EngineAction D I E Bytes
  execute_select r star columns where_ = do
    found ← reads (resolve_database r.db_name)
    t ← from_result (lift_dbms (require_table r.table_name found.1))
    λ e. let (text, used) = select_text ops regex star columns where_ t in (note_index used e, text)

  unfoldable pub execute_command : Command → EngineAction D I E Bytes
  execute_command (Command.create_database name) = execute_create_database name
  execute_command (Command.drop_database name) = execute_drop_database name
  execute_command (Command.use_database name) = execute_use_database name
  execute_command (Command.create_table r columns) = execute_create_table r columns
  execute_command (Command.drop_table r) = execute_drop_table r
  execute_command (Command.insert r names rows) = execute_insert r names rows
  execute_command (Command.update r assignments where_) = execute_update r assignments where_
  execute_command (Command.delete r where_) = execute_delete r where_
  execute_command (Command.select r star columns where_) = execute_select r star columns where_

-- The last character that is no blank is a semicolon.
abbrev semicolon_from : Bool → Bytes → Bool
semicolon_from last [] = last
semicolon_from last (c ∷ s) = semicolon_from (if is_space c then last else c == b';') s

unfoldable pub has_terminal_semicolon : Bytes → Bool
has_terminal_semicolon s = semicolon_from false s

unfoldable pub with_semicolon_if_missing : Bytes → Bytes
with_semicolon_if_missing query = if has_terminal_semicolon query then query else query ++ b';' ∷ []

abbrev parsed :
    {E : Type 0} → Result ParseError (Command × List Token) → Result (QueryError E) Command
parsed (ok (c, rest)) = ok c
parsed (err e) = err (parse_error e)

unfoldable pub read_command : {E : Type 0} → Bytes → Result (QueryError E) Command
read_command query = elim (tokenize (with_semicolon_if_missing query)) [
  | err e ↦ err (lex_error e)
  | ok tokens ↦ parsed (parse tokens)
]

unfoldable pub execute :
    {D I E : Type 0} → IndexOps I E → Disk D I E → Regex → Bytes → EngineAction D I E Bytes
execute ops disk regex query = do
  command ← from_result (read_command query)
  execute_command ops disk regex command
