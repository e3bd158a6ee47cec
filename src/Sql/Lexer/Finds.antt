-- ===== src/Sql/Lexer/Finds.antt =====
-- A round of `tokenize` finds a token that is spelled as it stands, or a byte that begins none.
use dbms_project_sp.Base.{
  ℕ, ◌≡◌, refl, ap, subst, All, Bool-cases, is_space, Bool, true, false, ◌||◌, [], ◌∷◌, ◌++◌,
  Option, none, some, inl, inr, arith, ◌==◌, if◌then◌else◌, Result, ok, err, Bytes, is_alpha,
  is_digit,
}
use dbms_project_sp.Sql.Token.{Token, same, end}
use dbms_project_sp.Sql.Keyword.{to_keyword-ne-end}
use dbms_project_sp.Sql.Lexer.{
  Lexer, LexError, at, next_line, advance, span_from, is_word, read_word, read_number, read_string,
  read_operator, close_string, string_from, found, found_string, read_other, read_token,
}
use dbms_project_sp.Sql.Lexer.Spelled.{
  symbol_text, Stops, grows, word, number, text, symbol, TokenAt, is_unknown, BeginsNone,
}

-- What a round finds is a token, or a byte that begins none.
abbrev pub FindsOption : ℕ → Bytes → ℕ → Option Token → Lexer → Type 0
FindsOption c cs line none v = BeginsNone c cs × (v ≡ (advance (at cs (next_line c line))).1)
FindsOption c cs line (some t) v = TokenAt (at (c ∷ cs) line) t v

abbrev pub Finds : ℕ → Bytes → ℕ → Result LexError (Option Token × Lexer) → Type 0
Finds c cs line (err e) = Unit
Finds c cs line (ok (o, v)) = FindsOption c cs line o v

span_from-Run :
    (test : ℕ → Bool) (cs : Bytes) (line : ℕ)
    → (cs ≡ (span_from test cs line).0 ++ (span_from test cs line).1.rest)
      × All (λ c. test c ≡ true) (span_from test cs line).0
      × Stops test (span_from test cs line).1.rest
unfolding span_from
span_from-Run test [] line = (refl, tt, tt)
span_from-Run test (c ∷ cs) line = elim (Bool-cases (test c)) [
  | inl e ↦
      let (splits, passes, stops) = span_from-Run test cs (next_line c line) in
      rw e (ap (λ l. c ∷ l) splits, (e, passes), stops)
  | inr e ↦ rw e (refl, tt, e)
]

read_word-TokenAt : (s : Lexer) → TokenAt s (read_word s).0 (read_word s).1
unfolding read_word
read_word-TokenAt s =
    let (splits, passes, stops) = span_from-Run is_word s.rest s.line in
    record {
      line_is = refl;
      not_end = to_keyword-ne-end _;
      spelled = word refl (record { splits = splits; passes = passes; stops = stops });
    }

read_number-TokenAt : (s : Lexer) → TokenAt s (read_number s).0 (read_number s).1
unfolding read_number same
read_number-TokenAt s =
    let (splits, passes, stops) = span_from-Run is_digit s.rest s.line in
    record {
      line_is = refl;
      not_end = refl;
      spelled = number refl (record { splits = splits; passes = passes; stops = stops });
    }

quote_line : (c line : ℕ) → (c == b'\'' || c == b'"') ≡ true → next_line c line ≡ line
quote_line c line h = ground arith

close_string-Finds :
    (c : ℕ) (cs : Bytes) (line : ℕ) (o : Option (Bytes × Lexer))
    → (c == b'\'' || c == b'"') ≡ true
    → string_from c cs (next_line c line) ≡ o
    → Finds c cs line (found_string (close_string line o))
unfolding same
close_string-Finds c cs line none h e = tt
close_string-Finds c cs line (some (str, s)) h e = record {
  line_is = refl;
  not_end = refl;
  spelled =
      text c cs s refl h refl
        (subst (λ l. string_from c cs l ≡ some (str, s)) (quote_line c line h) e) refl;
}

-- What `readOperator` makes of a byte that begins no word, number or string and is no blank.
read_operator-known :
    (c : ℕ) (cs : Bytes) (line : ℕ)
    → let (t, v) = read_operator (at (c ∷ cs) line) in
      same t.kind end ≡ false
      → (t.line ≡ line)
        × (symbol_text t.kind ≡ some t.value)
        × (c ∷ cs ≡ t.value ++ v.rest)
        × (grows t.kind ≡ true → Stops (λ d. d == b'=') v.rest)
unfolding read_operator same
read_operator-known c [] line = ground arith
read_operator-known c (d ∷ cs) line = ground arith

read_operator-unknown :
    (c : ℕ) (cs : Bytes) (line : ℕ)
    → (is_alpha c || c == b'_') ≡ false
    → is_digit c ≡ false
    → (c == b'\'' || c == b'"') ≡ false
    → is_space c ≡ false
    → let (t, v) = read_operator (at (c ∷ cs) line) in
      same t.kind end ≡ true → BeginsNone c cs × (v ≡ at cs (next_line c line))
unfolding read_operator same is_unknown
read_operator-unknown c [] line a n q b = ground arith
read_operator-unknown c (d ∷ cs) line a n q b = ground arith

read_other-Finds :
    (c : ℕ) (cs : Bytes) (line : ℕ) (t : Token) (v : Lexer)
    → (same t.kind end ≡ false
        → (t.line ≡ line)
          × (symbol_text t.kind ≡ some t.value)
          × (c ∷ cs ≡ t.value ++ v.rest)
          × (grows t.kind ≡ true → Stops (λ d. d == b'=') v.rest))
    → (same t.kind end ≡ true → BeginsNone c cs × (v ≡ at cs (next_line c line)))
    → Finds c cs line (ok (read_other (t, v)))
read_other-Finds c cs line t v is_symbol is_none = elim (Bool-cases (same t.kind end)) [
  | inl e ↦ let (none_begins, v_is) = is_none e in rw e (none_begins, ap (λ s. (advance s).1) v_is)
  | inr e ↦
      let (line_is, text_is, splits, stops) = is_symbol e in
      rw e (record { line_is = line_is; not_end = e; spelled = symbol text_is splits stops })
]

Finds-if :
    (c : ℕ) (cs : Bytes) (line : ℕ) (b : Bool) (p q : Result LexError (Option Token × Lexer))
    → (b ≡ true → Finds c cs line p)
    → (b ≡ false → Finds c cs line q)
    → Finds c cs line (if b then p else q)
Finds-if c cs line true p q hp hq = hp refl
Finds-if c cs line false p q hp hq = hq refl

pub read_token-Finds :
    (c : ℕ) (cs : Bytes) (line : ℕ)
    → is_space c ≡ false
    → Finds c cs line (read_token (at (c ∷ cs) line))
unfolding read_token read_string
read_token-Finds c cs line b =
    let s = at (c ∷ cs) line in
    let (t, v) = read_operator s in
    let other : Result LexError (Option Token × Lexer) = ok (read_other (read_operator s)) in
    let quoted = if c == b'\'' || c == b'"' then found_string (read_string s) else other in
    let numeric = if is_digit c then ok (found (read_number s)) else quoted in
    Finds-if c cs line (is_alpha c || c == b'_') (ok (found (read_word s))) numeric
      (λ _. read_word-TokenAt s)
      (λ a.
        Finds-if c cs line (is_digit c) (ok (found (read_number s))) quoted
          (λ _. read_number-TokenAt s)
          (λ n.
            Finds-if c cs line (c == b'\'' || c == b'"') (found_string (read_string s)) other
              (λ q. close_string-Finds c cs line _ q refl)
              (λ q.
                read_other-Finds c cs line t v (read_operator-known c cs line)
                  (read_operator-unknown c cs line a n q b))))
