-- ===== src/Sql/Keyword.antt =====
-- `Lexer::toKeyword` of server/parser/src/lexer.cpp.
use dbms_project_sp.Base.{
  ◌≡◌, refl, ap, Bool, true, false, not, ◌&&◌, List, [], ◌∷◌, map, arith, Bytes, codes, bytes_eq,
  to_upper, map-to_upper_twice, if◌then◌else◌,
}
use dbms_project_sp.Sql.Token.{
  TokenType, same, end, kw_select, kw_from, kw_where, kw_as, kw_insert, kw_into, kw_value,
  kw_update, kw_set, kw_delete, kw_create, kw_drop, kw_use, kw_database, kw_table, kw_not_null,
  kw_indexed, kw_default, kw_between, kw_and, kw_like, kw_or, kw_null, kw_sum, kw_count, kw_avg,
  identifier,
}

-- The map of the keywords. `VALUE` and `VALUES` are one token.
abbrev pub keywords : List (Bytes × TokenType)
keywords =
    (codes "SELECT", kw_select)
    ∷ (codes "FROM", kw_from)
    ∷ (codes "WHERE", kw_where)
    ∷ (codes "AS", kw_as)
    ∷ (codes "INSERT", kw_insert)
    ∷ (codes "INTO", kw_into)
    ∷ (codes "VALUE", kw_value)
    ∷ (codes "VALUES", kw_value)
    ∷ (codes "UPDATE", kw_update)
    ∷ (codes "SET", kw_set)
    ∷ (codes "DELETE", kw_delete)
    ∷ (codes "CREATE", kw_create)
    ∷ (codes "DROP", kw_drop)
    ∷ (codes "USE", kw_use)
    ∷ (codes "DATABASE", kw_database)
    ∷ (codes "TABLE", kw_table)
    ∷ (codes "NOT_NULL", kw_not_null)
    ∷ (codes "NULL", kw_null)
    ∷ (codes "INDEXED", kw_indexed)
    ∷ (codes "DEFAULT", kw_default)
    ∷ (codes "BETWEEN", kw_between)
    ∷ (codes "AND", kw_and)
    ∷ (codes "OR", kw_or)
    ∷ (codes "LIKE", kw_like)
    ∷ (codes "SUM", kw_sum)
    ∷ (codes "COUNT", kw_count)
    ∷ (codes "AVG", kw_avg)
    ∷ []

-- The token type of a word in upper case.
pub find_keyword : List (Bytes × TokenType) → Bytes → TokenType
find_keyword [] w = identifier
find_keyword ((k, t) ∷ m) w = if bytes_eq k w then t else find_keyword m w

unfoldable pub to_keyword : Bytes → TokenType
unfolding find_keyword
to_keyword word = find_keyword keywords (map to_upper word)

-- The case of the letters of a word does not matter.
pub to_keyword-to_upper : (w : Bytes) → to_keyword (map to_upper w) ≡ to_keyword w
unfolding to_keyword
to_keyword-to_upper w = ap (find_keyword keywords) (map-to_upper_twice w)

none_end : List (Bytes × TokenType) → Bool
none_end [] = true
none_end ((k, t) ∷ m) = not (same t end) && none_end m

find_keyword-ne-end :
    (m : List (Bytes × TokenType)) (w : Bytes)
    → none_end m ≡ true
    → same (find_keyword m w) end ≡ false
unfolding find_keyword none_end same
find_keyword-ne-end [] w h = refl
find_keyword-ne-end ((k, t) ∷ m) w h = ground (arith, find_keyword-ne-end m w)

-- No word is taken for the end of the input.
pub to_keyword-ne-end : (w : Bytes) → same (to_keyword w) end ≡ false
unfolding to_keyword none_end same
to_keyword-ne-end w = find_keyword-ne-end keywords (map to_upper w) refl
