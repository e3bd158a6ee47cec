-- ===== src/Engine/Errors.antt =====
-- What the query engine throws: its own exceptions and those of the parts it calls.
use dbms_project_sp.Base.Number.{NumberError}
use dbms_project_sp.Sql.Lexer.{LexError}
use dbms_project_sp.Sql.Cursor.{ParseError}
use dbms_project_sp.Storage.Dbms.{DbmsError}
use dbms_project_sp.Storage.Schema.{SchemaError}
use dbms_project_sp.Storage.Table.{TableError}
use dbms_project_sp.Storage.Table.Materialize.{MaterializeError}

pub data QueryError (E : Type 0) : Type 0 where
  column_error : MaterializeError → QueryError E
  number_error : NumberError → QueryError E
  schema_error : SchemaError → QueryError E
  table_error : TableError E → QueryError E
  index_failed : E → QueryError E
  dbms_error : DbmsError → QueryError E
  lex_error : LexError → QueryError E
  parse_error : ParseError → QueryError E
  -- `std::filesystem` and the streams
  disk_error : E → QueryError E
  -- `at` past the end, and `std::regex_error`
  out_of_bounds bad_pattern : QueryError E
