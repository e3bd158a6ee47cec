-- ===== src/Storage/Datum.antt =====
-- SQL values as what they stand for, and their comparison: the view of `cw_db::Value` in which a
-- string is its text. storage/src/value.cpp works on ids of a string pool instead; that it agrees
-- with this view is shown in the module on values.
pub mod Order
use dbms_project_sp.Base.{ℕ, Bool, true, false, Option, none, some, if◌then◌else◌, Bytes, bytes_lt}
use dbms_project_sp.Base.Int.{ℤ, pos, negsuc, ltb_ℤ}

pub data DataType : Type 0 where
  int str : DataType

pub data Datum : Type 0 where
  null : Datum
  int : ℤ → Datum
  str : Bytes → Datum

-- The three answers of `compare`, and the answer that two values cannot be compared.
pub data Comparison : Type 0 where
  invalid less equal greater : Comparison

abbrev pub three_way : Bool → Bool → Comparison
three_way below above = if below then less else if above then greater else equal

-- NULL, and values of two types, are not compared.
unfoldable pub compare : Datum → Datum → Comparison
compare (int a) (int b) = three_way (ltb_ℤ a b) (ltb_ℤ b a)
compare (str a) (str b) = three_way (bytes_lt a b) (bytes_lt b a)
compare _ _ = invalid

abbrev pub is_null : Datum → Bool
is_null null = true
is_null _ = false

-- NULL fits every column.
unfoldable pub matches : Datum → DataType → Bool
matches null t = true
matches (int n) DataType.int = true
matches (str s) DataType.str = true
matches _ _ = false
