-- ===== src/Sql/Token.antt =====
-- server/parser/include/lexer.h: the tokens.
use dbms_project_sp.Base.{
  ℕ, ◌≡◌, ◌↔◌, refl, ap, Bool, true, List, [], ◌∷◌, some, get_elem?, ◌==◌, ==_iff, Bytes,
}

pub data TokenType : Type 0 where
  kw_select kw_from kw_where kw_as kw_insert kw_into kw_value kw_update kw_set kw_delete : TokenType
  kw_create kw_drop kw_use kw_database kw_table kw_not_null kw_indexed kw_default : TokenType
  kw_between kw_and kw_like kw_or kw_null kw_sum kw_count kw_avg : TokenType
  int_literal str_literal identifier : TokenType
  op_eq op_neq op_lt op_gt op_lte op_gte op_assign : TokenType
  comma semicolon lparen rparen star dot backtick end : TokenType

-- The numbers that the `enum class` gives to its members, in their order.
unfoldable pub rank : TokenType → ℕ
rank kw_select = 0
rank kw_from = 1
rank kw_where = 2
rank kw_as = 3
rank kw_insert = 4
rank kw_into = 5
rank kw_value = 6
rank kw_update = 7
rank kw_set = 8
rank kw_delete = 9
rank kw_create = 10
rank kw_drop = 11
rank kw_use = 12
rank kw_database = 13
rank kw_table = 14
rank kw_not_null = 15
rank kw_indexed = 16
rank kw_default = 17
rank kw_between = 18
rank kw_and = 19
rank kw_like = 20
rank kw_or = 21
rank kw_null = 22
rank kw_sum = 23
rank kw_count = 24
rank kw_avg = 25
rank int_literal = 26
rank str_literal = 27
rank identifier = 28
rank op_eq = 29
rank op_neq = 30
rank op_lt = 31
rank op_gt = 32
rank op_lte = 33
rank op_gte = 34
rank op_assign = 35
rank comma = 36
rank semicolon = 37
rank lparen = 38
rank rparen = 39
rank star = 40
rank dot = 41
rank backtick = 42
rank end = 43

abbrev members : List TokenType
members =
    kw_select ∷ kw_from ∷ kw_where ∷ kw_as ∷ kw_insert ∷ kw_into ∷ kw_value ∷ kw_update ∷ kw_set
    ∷ kw_delete ∷ kw_create ∷ kw_drop ∷ kw_use ∷ kw_database ∷ kw_table ∷ kw_not_null ∷ kw_indexed
    ∷ kw_default ∷ kw_between ∷ kw_and ∷ kw_like ∷ kw_or ∷ kw_null ∷ kw_sum ∷ kw_count ∷ kw_avg
    ∷ int_literal ∷ str_literal ∷ identifier ∷ op_eq ∷ op_neq ∷ op_lt ∷ op_gt ∷ op_lte ∷ op_gte
    ∷ op_assign ∷ comma ∷ semicolon ∷ lparen ∷ rparen ∷ star ∷ dot ∷ backtick ∷ end ∷ []

get_elem?-rank : (t : TokenType) → get_elem? members (rank t) ≡ some t
unfolding rank
get_elem?-rank kw_select = refl
get_elem?-rank _ = refl

pub rank-injective : (t u : TokenType) → rank t ≡ rank u → t ≡ u
rank-injective t u e = cc (get_elem?-rank t, get_elem?-rank u, ap (get_elem? members) e)

-- `==` of two token types.
unfoldable pub same : TokenType → TokenType → Bool
unfolding rank
same t u = rank t == rank u

pub same_iff : (t u : TokenType) → (same t u ≡ true) ↔ (t ≡ u)
same_iff t u = (
  λ h. rank-injective t u (unfold same in (==_iff (rank t) (rank u)).0 h),
  λ e. unfold same in (==_iff (rank t) (rank u)).1 (ap rank e),
)

pub record Token : Type 0 where
  pub kind : TokenType
  pub value : Bytes
  pub line : ℕ
