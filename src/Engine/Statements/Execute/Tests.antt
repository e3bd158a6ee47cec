-- ===== src/Engine/Statements/Execute/Tests.antt =====
-- Queries to a server with an empty data directory.
use dbms_project_sp.Base.{
  Bool, ℕ, is_space, is_alpha, is_alnum, ◌≡◌, refl, Bool, false, [], Bytes, codes, ok,
}
use dbms_project_sp.Base.Dict.{find, put}
use dbms_project_sp.Sql.Token.{same}
use dbms_project_sp.Sql.Keyword.{to_keyword}
use dbms_project_sp.Sql.Lexer.{tokenize, span_from, is_word}
use dbms_project_sp.Sql.Parser.{parse}
use dbms_project_sp.Storage.Dbms.{new_dbms, create_database}
use dbms_project_sp.Storage.Tests.{Keys, key_list}
use dbms_project_sp.Engine.Tests.{exact_match}
use dbms_project_sp.Engine.Statements.Execute.{
  QueryEngine, Disk, execute, execute_command, execute_create_database, read_command,
  with_semicolon_if_missing, has_terminal_semicolon,
}
use dbms_project_sp.Engine.Statements.Execute.Sound.{IsDbms}
use dbms_project_sp.Engine.Statements.Execute.Reach.{start, step, HasIds, Reachable-IsDbms}

-- A disk without faults that keeps nothing.
abbrev no_files : Disk (Unit {0}) Keys Bool
no_files = record {
  make_directory = λ name d. (d, ok tt);
  remove_directory = λ name d. d;
  save_all = λ databases d. (d, ok tt);
  make_index = λ db_name table_name column d. (d, ok []);
}

abbrev fresh : QueryEngine (Unit {0}) Keys
fresh = record { dbms = new_dbms; disk = tt; last_select_used_index = false }

abbrev after : Bytes → QueryEngine (Unit {0}) Keys → QueryEngine (Unit {0}) Keys
after query e = (execute key_list no_files exact_match query e).0

abbrev created : QueryEngine (Unit {0}) Keys
created = after (codes "CREATE DATABASE shop") fresh

created_reply :
    (execute key_list no_files exact_match (codes "CREATE DATABASE shop") fresh).1 ≡ ok (codes "OK")
unfolding execute execute_command execute_create_database read_command with_semicolon_if_missing
    has_terminal_semicolon create_database find put tokenize is_space is_alpha is_alnum span_from
    is_word same to_keyword parse
created_reply = refl

created_HasIds : (n : ℕ) → HasIds n created.dbms
unfolding execute execute_command execute_create_database read_command with_semicolon_if_missing
    has_terminal_semicolon create_database find put tokenize is_space is_alpha is_alnum span_from
    is_word same to_keyword parse
created_HasIds n = (tt, tt)

Reachable-IsDbms_example : IsDbms 0 (after (codes "USE shop") created).dbms
Reachable-IsDbms_example =
    Reachable-IsDbms key_list no_files exact_match (after (codes "USE shop") created) (
      step created (codes "USE shop") (created_HasIds _)
        (step fresh (codes "CREATE DATABASE shop") tt (start tt)))
