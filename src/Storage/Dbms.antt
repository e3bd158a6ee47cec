-- ===== src/Storage/Dbms.antt =====
-- storage/src/dbms.cpp and storage/include/storage/database.h: the databases and their tables. A
-- table without an index is made here; what happens in the file system is not part of the state.
use dbms_project_sp.Base.{
  List, [], Option, none, some, if◌then◌else◌, Bytes, bytes_eq, Result, ok, err,
}
use dbms_project_sp.Base.Dict.{find, put, drop_key}
use dbms_project_sp.Storage.Schema.{TableSchema}
use dbms_project_sp.Storage.Table.{Table}

pub data DbmsError : Type 0 where
  unknown_database database_exists no_database unknown_table table_exists : DbmsError

-- A database is the tables by their names.
abbrev pub Database : Type 0 → Type 0
Database I = List (Bytes × Table I)

-- `active` is empty where no database is in use.
pub record Dbms (I : Type 0) : Type 0 where
  pub databases : List (Bytes × Database I)
  pub active : Bytes

abbrev pub new_dbms : {I : Type 0} → Dbms I
new_dbms = record { databases = []; active = [] }

abbrev pub empty_table : {I : Type 0} → TableSchema → Table I
empty_table s = record { schema = s; rows = []; order = []; indexes = []; next_id = 1 }

abbrev pub or_throw : {A : Type 0} → DbmsError → Option A → Result DbmsError A
or_throw e none = err e
or_throw e (some a) = ok a

module _ {I : Type 0} where
  unfoldable pub require_database : Bytes → Dbms I → Result DbmsError (Database I)
  require_database name d = or_throw unknown_database (find name d.databases)

  unfoldable pub create_database : Bytes → Dbms I → Dbms I × Result DbmsError (Unit {0})
  create_database name d = elim (find name d.databases) [
    | some db ↦ (d, err database_exists)
    | none ↦ (record { databases = put name [] d.databases; active = d.active }, ok tt)
  ]

  unfoldable pub drop_database : Bytes → Dbms I → Dbms I × Result DbmsError (Unit {0})
  drop_database name d = elim (find name d.databases) [
    | none ↦ (d, err unknown_database)
    | some db ↦ (
      record {
        databases = drop_key name d.databases;
        active = if bytes_eq d.active name then [] else d.active;
      },
      ok tt,
    )
  ]

  unfoldable pub use_database : Bytes → Dbms I → Dbms I × Result DbmsError (Unit {0})
  use_database name d = elim (find name d.databases) [
    | none ↦ (d, err unknown_database)
    | some db ↦ (record { databases = d.databases; active = name }, ok tt)
  ]

  unfoldable pub active_db : Dbms I → Result DbmsError (Database I)
  unfolding require_database
  active_db d = if bytes_eq d.active [] then err no_database else require_database d.active d

  unfoldable pub require_table : Bytes → Database I → Result DbmsError (Table I)
  require_table name db = or_throw unknown_table (find name db)

  -- `Database::create_table`, a method beside that of the query engine.
  unfoldable pub create_table : Bytes → TableSchema → Database I → Result DbmsError (Database I)
  create_table name s db = elim (find name db) [
    | some t ↦ err table_exists
    | none ↦ ok (put name (empty_table s) db)
  ]

  unfoldable pub drop_table : Bytes → Database I → Result DbmsError (Database I)
  drop_table name db = elim (find name db) [
    | none ↦ err unknown_table
    | some t ↦ ok (drop_key name db)
  ]
