-- ===== src/Executor/Api.antt =====
-- `parseApiCommand` of executor/src/request_api.cpp.
pub mod Commands
use dbms_project_sp.Base.{
  ℕ, Bool, true, false, List, [], ◌∷◌, ◌++◌, map, if◌then◌else◌, ◌==◌, Bytes, bytes_eq, codes,
  is_space, to_upper,
}
use dbms_project_sp.Executor.Classifier.{trim}

pub data ApiCommand : Type 0 where
  submit_query get_status get_result : Bytes → ApiCommand

-- `pop_back`, where the last character is a semicolon.
unfoldable pub drop_semicolon : Bytes → Bytes
drop_semicolon [] = []
drop_semicolon (c ∷ []) = if c == b';' then [] else c ∷ []
drop_semicolon (c ∷ d ∷ s) = c ∷ drop_semicolon (d ∷ s)

unfoldable pub remove_optional_semicolon : Bytes → Bytes
remove_optional_semicolon s = trim (drop_semicolon s)

abbrev pub push_part : Bytes → List Bytes → List Bytes
push_part [] parts = parts
push_part (c ∷ current) parts = (c ∷ current) ∷ parts

-- `current` is what was read of the part that is not yet ended.
unfoldable pub split_from : Bytes → Bytes → List Bytes
split_from current [] = push_part current []
split_from current (c ∷ s) = elim (is_space c) [
  | true ↦ push_part current (split_from [] s)
  | false ↦ split_from (current ++ c ∷ []) s
]

unfoldable pub split_by_space : Bytes → List Bytes
split_by_space text = split_from [] text

abbrev pub api_command : List Bytes → Bytes → ApiCommand
api_command (get ∷ operation ∷ payload ∷ []) raw =
    if bytes_eq (map to_upper get) (codes "GET")
    then (if bytes_eq (map to_upper operation) (codes "STATUS")
        then get_status payload
        else if bytes_eq (map to_upper operation) (codes "RESULT")
        then get_result payload
        else submit_query raw)
    else submit_query raw
api_command _ raw = submit_query raw

unfoldable pub parse_api_command : Bytes → ApiCommand
parse_api_command raw = api_command (split_by_space (remove_optional_semicolon (trim raw))) raw
