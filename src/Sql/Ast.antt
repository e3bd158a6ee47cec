-- ===== src/Sql/Ast.antt =====
-- server/parser/include/parser.h: conditions and commands.
use dbms_project_sp.Base.{Bool, List, Option, Bytes}
use dbms_project_sp.Base.Int.{ℤ}

-- `Value`, a variant: `int`, `std::string`, or `monostate` for NULL.
pub data SqlValue : Type 0 where
  int : ℤ → SqlValue
  str : Bytes → SqlValue
  monostate : SqlValue

pub data Op : Type 0 where
  eq neq lt gt lte gte between like : Op

pub data LogicalOp : Type 0 where
  none and or : LogicalOp

-- The fields of `Condition` that make a simple condition. The source leaves `right2` and
-- `right2IsColumn` unset where `op` is not `between`.
pub record Comparison : Type 0 where
  pub left : Bytes
  pub left_is_column : Bool
  pub op : Op
  pub right : Bytes
  pub right_is_column : Bool
  pub right2 : Bytes
  pub right2_is_column : Bool

mutual
  -- The simple part, `logicalOp`, `next`, `leftTree` and `isParenthesized`.
  pub data Condition : Type 0 where
    node : Comparison → LogicalOp → Link → Link → Bool → Condition

  -- `std::unique_ptr<Condition>`
  pub data Link : Type 0 where
    null : Link
    ref : Condition → Link

pub data AggregateFunc : Type 0 where
  none sum count avg : AggregateFunc

pub data ColumnType : Type 0 where
  int string : ColumnType

pub data Modifier : Type 0 where
  none not_null indexed : Modifier

-- `ColumnDef` of the parser.
pub record ColumnDef : Type 0 where
  pub name : Bytes
  pub type : ColumnType
  pub modifier : Modifier
  pub default_value : Option SqlValue

pub record Assignment : Type 0 where
  pub column : Bytes
  pub value : SqlValue

pub record SelectColumn : Type 0 where
  pub name : Bytes
  pub alias : Bytes
  pub aggregate_func : AggregateFunc

-- A table, with the name of its database, empty for the one in use.
pub record TableRef : Type 0 where
  pub db_name : Bytes
  pub table_name : Bytes

-- The variant of the nine command structs, each with its fields in their order.
pub data Command : Type 0 where
  create_database : Bytes → Command
  drop_database : Bytes → Command
  use_database : Bytes → Command
  create_table : TableRef → List ColumnDef → Command
  drop_table : TableRef → Command
  insert : TableRef → List Bytes → List (List (Option SqlValue)) → Command
  update : TableRef → List Assignment → Option Condition → Command
  delete : TableRef → Option Condition → Command
  select : TableRef → Bool → List SelectColumn → Option Condition → Command
