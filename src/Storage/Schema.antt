-- ===== src/Storage/Schema.antt =====
-- storage/include/sql/schema.h: the columns of a table. A default value is the value it stands for.
pub mod Names
use dbms_project_sp.Base.{
  ℕ, suc, Bool, List, [], ◌∷◌, ◌++◌, Option, none, some, if◌then◌else◌, Bytes, bytes_eq, Result, ok,
  err,
}
use dbms_project_sp.Storage.Datum.{DataType, Datum}

pub record ColumnDef : Type 0 where
  pub name : Bytes
  pub type : DataType
  pub not_null : Bool
  pub indexed : Bool
  pub default_value : Option Datum

pub record TableSchema : Type 0 where
  pub columns : List ColumnDef
  pub index_by_name : List (Bytes × ℕ)

pub data SchemaError : Type 0 where
  empty_name duplicate_column : SchemaError

abbrev find_name : Bytes → List (Bytes × ℕ) → Option ℕ
find_name name [] = none
find_name name ((key, i) ∷ m) = if bytes_eq key name then some i else find_name name m

unfoldable pub find_index : Bytes → TableSchema → Option ℕ
find_index name s = find_name name s.index_by_name

abbrev empty_schema : TableSchema
empty_schema = record { columns = []; index_by_name = [] }

-- The loop's state is the schema built from the columns before `i`.
unfoldable pub set_columns_from : List ColumnDef → ℕ → TableSchema → Result SchemaError TableSchema
set_columns_from [] i s = ok s
set_columns_from (c ∷ cs) i s =
    let rest =
      set_columns_from cs (suc i)
        (record { columns = s.columns ++ c ∷ []; index_by_name = (c.name, i) ∷ s.index_by_name }) in
    if bytes_eq c.name []
    then err empty_name
    else elim (find_index c.name s) [ some j ↦ err duplicate_column | none ↦ rest ]

unfoldable pub set_columns : List ColumnDef → Result SchemaError TableSchema
set_columns cs = set_columns_from cs 0 empty_schema
