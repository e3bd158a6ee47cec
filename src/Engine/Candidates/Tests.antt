-- ===== src/Engine/Candidates/Tests.antt =====
-- A selection by an indexed column of a table of two rows.
use dbms_project_sp.Base.{true, false, [], ◌∷◌, codes}
use dbms_project_sp.Base.Int.{pos}
use dbms_project_sp.Sql.Ast.{between, Condition}
use dbms_project_sp.Sql.Conditions.{simple}
use dbms_project_sp.Storage.Datum
use dbms_project_sp.Storage.Datum.{Datum}
use dbms_project_sp.Storage.Table.{Table}
use dbms_project_sp.Storage.Tests.{Keys}
use dbms_project_sp.Engine.Tests.{age_schema}

abbrev ages : Table Keys
ages = record {
  schema = age_schema;
  rows = (1, Datum.int (pos 30) ∷ []) ∷ (2, Datum.int (pos 70) ∷ []) ∷ [];
  order = 1 ∷ 2 ∷ [];
  indexes = (0, (Datum.int (pos 30), 1) ∷ (Datum.int (pos 70), 2) ∷ []) ∷ [];
  next_id = 3;
}

abbrev age_condition : Condition
age_condition = simple (record {
  left = codes "age";
  left_is_column = true;
  op = between;
  right = codes "18";
  right_is_column = false;
  right2 = codes "65";
  right2_is_column = false;
})
