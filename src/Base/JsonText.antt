-- ===== src/Base/JsonText.antt =====
-- A reader of the strings of JSON, for the texts that the program writes.
use Prim.Native.Nat.{ℕ, zero, suc, ◌+◌, ◌-◌, ◌*◌}
use mathlib.Core.Option.{Option, none, some}
use mathlib.Core.List.{[], ◌∷◌}
use dbms_project_sp.Base.Tests.{ltb, ◌==◌, if◌then◌else◌}
use dbms_project_sp.Base.Text.{Bytes}

abbrev pub hex_value : ℕ → ℕ
hex_value c = if ltb c b'a' then c - b'0' else c - b'a' + 10

-- What stands for one character behind a backslash.
abbrev pub unescaped : ℕ → ℕ
unescaped c =
    if c == b'b'
    then 8
    else if c == b'f'
    then 12
    else if c == b'n'
    then b'\n'
    else if c == b'r'
    then b'\r'
    else if c == b't'
    then b'\t'
    else c

-- Where a reader of JSON strings stands: between characters, behind a backslash, or in a code of
-- four digits, with the digits that are left and the value of those before.
pub data Place : Type 0 where
  plain behind_backslash : Place
  in_code : ℕ → ℕ → Place

pub data Step : Type 0 where
  close stop : Step
  skip : Place → Step
  give : ℕ → Step

-- A character below 32 stands in no JSON string.
abbrev pub read_one : Place → ℕ → Step
read_one plain c =
    if c == b'"'
    then close
    else if c == b'\\'
    then skip behind_backslash
    else if ltb c 32
    then stop
    else give c
read_one behind_backslash c = if c == b'u' then skip (in_code 3 0) else give (unescaped c)
read_one (in_code zero v) c = give (v * 16 + hex_value c)
read_one (in_code (suc n) v) c = skip (in_code n (v * 16 + hex_value c))

abbrev pub prepend : ℕ → Option (Bytes × Bytes) → Option (Bytes × Bytes)
prepend c none = none
prepend c (some (s, rest)) = some (c ∷ s, rest)

-- The text up to the quote that closes it, and what stands behind that.
unfoldable pub read_text : Place → Bytes → Option (Bytes × Bytes)
read_text place [] = none
read_text place (c ∷ s) = elim (read_one place c) [
  | close ↦ some ([], s)
  | stop ↦ none
  | skip place' ↦ read_text place' s
  | give x ↦ prepend x (read_text plain s)
]
