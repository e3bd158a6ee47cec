-- ===== src/Sql/Lexer/Rounds.antt =====
-- The rounds of `tokenize`: their number does not matter once it is enough, and what a byte does
-- that no token begins with.
use dbms_project_sp.Base.{
  ℕ, zero, suc, ◌<◌, ◌≡◌, refl, ap, ◌∙◌, true, false, List, [], ◌∷◌, Option, none, length, arith,
  ◌==◌, Result, ok, err, Bytes,
}
use dbms_project_sp.Sql.Token.{Token, same}
use dbms_project_sp.Sql.Lexer.{
  Lexer, LexError, at, next_line, skip_whitespace, read_token, continue, push, tokenize_round,
  tokenize_from, tokenize,
}
use dbms_project_sp.Sql.Lexer.Spelled.{is_unknown}
use dbms_project_sp.Sql.Lexer.Reads.{
  Reads-length, Reads-skip_whitespace, ReadsResult, Reads-read_token,
}

module _ (f g : Lexer → Result LexError (List Token)) (n : ℕ)
    (agree : (v : Lexer) → length v.rest < n → f v ≡ g v) where
  continue-agree :
      (c : ℕ) (cs : Bytes) (line : ℕ) (r : Result LexError (Option Token × Lexer))
      → length cs < n
      → ReadsResult (at cs (next_line c line)) r
      → continue f r ≡ continue g r
  continue-agree c cs line (err x) l p = refl
  continue-agree c cs line (ok (o, v)) l p = ap (push o) (agree v (omega (arith, Reads-length p)))

  tokenize_round-agree :
      (cs : Bytes) (line : ℕ)
      → length cs < suc n
      → tokenize_round f (at cs line) ≡ tokenize_round g (at cs line)
  unfolding tokenize_round
  tokenize_round-agree [] line l = refl
  tokenize_round-agree (c ∷ cs) line l =
      continue-agree c cs line _ (omega arith) (Reads-read_token c cs line)

-- Any two numbers of rounds above the length of the input give the same tokens.
tokenize_from-agree :
    (m n : ℕ) (s : Lexer)
    → length s.rest < m
    → length s.rest < n
    → tokenize_from m s ≡ tokenize_from n s
unfolding tokenize_from
tokenize_from-agree zero n s l k = elim l [ ]
tokenize_from-agree (suc m) zero s l k = elim k [ ]
tokenize_from-agree (suc m) (suc n) s l k =
    let u = skip_whitespace s in
    let shorter = Reads-length (Reads-skip_whitespace s) in
    tokenize_round-agree (tokenize_from m) (tokenize_from n) (length s.rest)
      (λ v h. tokenize_from-agree m n v (omega arith) (omega arith)) u.rest u.line
      (omega (arith, shorter))

skip_unknown :
    (c : ℕ) (cs : Bytes) (line : ℕ)
    → is_unknown c ≡ true
    → skip_whitespace (at (c ∷ cs) line) ≡ at (c ∷ cs) line
unfolding skip_whitespace is_unknown
skip_unknown c cs line h = ground arith

read_unknown :
    (c d : ℕ) (cs : Bytes) (line : ℕ)
    → is_unknown c ≡ true
    → read_token (at (c ∷ d ∷ cs) line) ≡ ok (none, at cs (next_line d (next_line c line)))
unfolding read_token is_unknown same
read_unknown c d cs line h = ground arith

round_unknown :
    (f : Lexer → Result LexError (List Token)) (c d : ℕ) (cs : Bytes) (line : ℕ)
    → is_unknown c ≡ true
    → tokenize_round f (skip_whitespace (at (c ∷ d ∷ cs) line))
      ≡ f (at cs (next_line d (next_line c line)))
round_unknown f c d cs line h =
    rw (skip_unknown c (d ∷ cs) line h) (unfold tokenize_round in rw (read_unknown c d cs line h))

next_line_unknown : (c line : ℕ) → is_unknown c ≡ true → next_line c line ≡ line
unfolding is_unknown
next_line_unknown c line h = ground arith

-- A byte at the start of the input that begins no token is dropped together with the byte behind it,
-- whatever that is but a newline: `readOperator` has consumed the first, and `tokenize` then advances once more.
pub tokenize-unknown :
    (c d : ℕ) (cs : Bytes)
    → is_unknown c ≡ true
    → (d == b'\n') ≡ false
    → tokenize (c ∷ d ∷ cs) ≡ tokenize cs
unfolding tokenize
tokenize-unknown c d cs h k =
    let f = tokenize_from (suc (suc (length cs))) in
    round_unknown f c d cs 1 h
    ∙ ap (λ l. f (at cs l)) (ap (next_line d) (next_line_unknown c 1 h) ∙ rw k)
    ∙ tokenize_from-agree (suc (suc (length cs))) (suc (length cs)) (at cs 1) (omega arith)
        (omega arith)
