-- ===== src/Sql/Lexer/Reads.antt =====
-- Every reader of the lexer takes a prefix of the input off, and counts its newlines.
use dbms_project_sp.Base.{
  ℕ, ◌+◌, ◌<◌, ◌≡◌, refl, ap, ◌∙◌, sym, Bool, true, false, [], ◌∷◌, ◌++◌, append_assoc, Option,
  none, some, ◌⊎◌, inl, inr, length, length-append, arith, ◌==◌, if◌then◌else◌, Bytes, is_space,
  is_digit, is_alpha, is_alnum, ◌||◌, not, subst, Result, ok, err,
}
use dbms_project_sp.Sql.Token.{Token, same, end}
use dbms_project_sp.Sql.Lexer.{
  Lexer, at, next_line, advance, skip_from, skip_whitespace, span_from, string_from, advance_on,
  unescape, is_word, read_word, read_number, read_string, close_string, prepend, read_operator,
  read_other, read_token, found, found_string, LexError,
}

abbrev pub newlines : Bytes → ℕ
newlines [] = 0
newlines (c ∷ cs) = (if c == b'\n' then 1 else 0) + newlines cs

pub newlines-append : (xs ys : Bytes) → newlines (xs ++ ys) ≡ newlines xs + newlines ys
newlines-append [] ys = omega arith
newlines-append (c ∷ xs) ys = omega (arith, newlines-append xs ys)

-- From `s` the bytes `read` lead to `s'`.
pub record Reads (s s' : Lexer) : Type 0 where
  pub read : Bytes
  pub splits : s.rest ≡ read ++ s'.rest
  pub counts : s'.line ≡ s.line + newlines read

pub Reads-refl : (s : Lexer) → Reads s s
Reads-refl s = record { read = []; splits = refl; counts = omega arith }

pub Reads-trans : {s t u : Lexer} → Reads s t → Reads t u → Reads s u
Reads-trans {s} {t} {u} a b = record {
  read = a.read ++ b.read;
  splits = a.splits ∙ ap (λ r. a.read ++ r) b.splits ∙ sym (append_assoc a.read b.read u.rest);
  counts = omega (arith, a.counts, b.counts, newlines-append a.read b.read);
}

pub Reads-cons :
    (c : ℕ) (cs : Bytes) (line : ℕ) → Reads (at (c ∷ cs) line) (at cs (next_line c line))
Reads-cons c cs line = record { read = c ∷ []; splits = refl; counts = ground arith }

pub Reads-length : {s s' : Lexer} → Reads s s' → length s'.rest < length s.rest + 1
Reads-length {s} {s'} r = omega (arith, ap (length {A = ℕ}) r.splits, length-append r.read s'.rest)

pub Reads-if : (b : Bool) {s t u : Lexer} → Reads s t → Reads s u → Reads s (if b then t else u)
Reads-if true p q = p
Reads-if false p q = q

-- The same for what returns a value beside the lexer.
pub Reads-if_pair {ℓ} :
    {A : Type ℓ} (b : Bool) {s : Lexer} (p q : A × Lexer)
    → Reads s p.1
    → Reads s q.1
    → Reads s (if b then p else q).1
Reads-if_pair true p q hp hq = hp
Reads-if_pair false p q hp hq = hq

Reads-advance_on : (r : Bytes) (line : ℕ) → Reads (at r line) (advance_on r line).1
Reads-advance_on [] line = Reads-refl _
Reads-advance_on (c ∷ cs) line = Reads-cons c cs line

pub Reads-advance : (s : Lexer) → Reads s (advance s).1
unfolding advance
Reads-advance s = Reads-advance_on s.rest s.line

Reads-skip_from : (cs : Bytes) (line : ℕ) → Reads (at cs line) (skip_from cs line)
unfolding skip_from
Reads-skip_from [] line = Reads-refl _
Reads-skip_from (c ∷ cs) line =
    Reads-if (is_space c) (Reads-trans (Reads-cons c cs line) (Reads-skip_from cs _)) (Reads-refl _)

pub Reads-skip_whitespace : (s : Lexer) → Reads s (skip_whitespace s)
unfolding skip_whitespace
Reads-skip_whitespace s = Reads-skip_from s.rest s.line

pub Reads-span_from :
    (test : ℕ → Bool) (cs : Bytes) (line : ℕ) → Reads (at cs line) (span_from test cs line).1
unfolding span_from
Reads-span_from test [] line = Reads-refl _
Reads-span_from test (c ∷ cs) line =
    Reads-if_pair (test c) _ _ (Reads-trans (Reads-cons c cs line) (Reads-span_from test cs _))
      (Reads-refl _)

-- What a reader that may fail has read when it succeeds.
abbrev ReadsOption : Lexer → Option (Bytes × Lexer) → Type 0
ReadsOption s none = Unit
ReadsOption s (some (_, s')) = Reads s s'

ReadsOption-if :
    (s : Lexer) (b : Bool) (p q : Option (Bytes × Lexer))
    → ReadsOption s p
    → ReadsOption s q
    → ReadsOption s (if b then p else q)
ReadsOption-if s true p q hp hq = hp
ReadsOption-if s false p q hp hq = hq

ReadsOption-prepend :
    {s t : Lexer} (front : Bytes) (o : Option (Bytes × Lexer))
    → Reads s t
    → ReadsOption t o
    → ReadsOption s (prepend front o)
ReadsOption-prepend front none h r = tt
ReadsOption-prepend front (some (_, s')) h r = Reads-trans h r

Reads-string_from :
    (quote : ℕ) (cs : Bytes) (line : ℕ) → ReadsOption (at cs line) (string_from quote cs line)
unfolding string_from
Reads-string_from quote [] line = tt
Reads-string_from quote (c ∷ []) line =
    ReadsOption-if _ (c == quote) (some ([], at (c ∷ []) line)) none (Reads-refl _) tt
Reads-string_from quote (c ∷ e ∷ cs) line =
    ReadsOption-if _ (c == quote) (some ([], at (c ∷ e ∷ cs) line)) _ (Reads-refl _) (
      ReadsOption-if _ (c == b'\\') _ _
        (ReadsOption-prepend (unescape e) (string_from quote cs _)
          (Reads-trans (Reads-cons c (e ∷ cs) line) (Reads-cons e cs _))
          (Reads-string_from quote cs _))
        (ReadsOption-prepend (c ∷ []) (string_from quote (e ∷ cs) _) (Reads-cons c (e ∷ cs) line)
          (Reads-string_from quote (e ∷ cs) _)))

-- A word or a number takes its first byte.
Reads-span_from_cons :
    (test : ℕ → Bool) (c : ℕ) (cs : Bytes) (line : ℕ)
    → test c ≡ true
    → Reads (at cs (next_line c line)) (span_from test (c ∷ cs) line).1
unfolding span_from
Reads-span_from_cons test c cs line h = rw h (Reads-span_from test cs _)

-- `readOperator` advances once or twice.
read_operator_rest :
    (c : ℕ) (cs : Bytes) (line : ℕ)
    → let s' = at cs (next_line c line) in
      let r = (read_operator (at (c ∷ cs) line)).1 in (r ≡ s') ⊎ (r ≡ (advance s').1)
unfolding read_operator
read_operator_rest c cs line = ground arith

Reads-read_operator :
    (c : ℕ) (cs : Bytes) (line : ℕ)
    → Reads (at cs (next_line c line)) (read_operator (at (c ∷ cs) line)).1
Reads-read_operator c cs line = elim (read_operator_rest c cs line) [
  | inl e ↦ subst (Reads _) (sym e) (Reads-refl _)
  | inr e ↦ subst (Reads _) (sym e) (Reads-advance _)
]

abbrev pub ReadsResult {ℓ} : {A : Type ℓ} → Lexer → Result LexError (A × Lexer) → Type 0
ReadsResult s (err e) = Unit
ReadsResult s (ok (_, s')) = Reads s s'

ReadsResult-if {ℓ} :
    {A : Type ℓ} (s : Lexer) (b : Bool) (p q : Result LexError (A × Lexer))
    → (b ≡ true → ReadsResult s p)
    → ReadsResult s q
    → ReadsResult s (if b then p else q)
ReadsResult-if s true p q hp hq = hp refl
ReadsResult-if s false p q hp hq = hq

Reads-close_string :
    (s t : Lexer) (start : ℕ) (o : Option (Bytes × Lexer))
    → Reads s t
    → ReadsOption t o
    → ReadsResult s (close_string start o)
Reads-close_string s t start none h r = tt
Reads-close_string s t start (some (str, u)) h r = Reads-trans h (Reads-trans r (Reads-advance u))

Reads-found_string :
    (s : Lexer) (r : Result LexError (Token × Lexer))
    → ReadsResult s r
    → ReadsResult s (found_string r)
Reads-found_string s (ok (t, u)) h = h
Reads-found_string s (err e) h = tt

Reads-read_string :
    (c : ℕ) (cs : Bytes) (line : ℕ)
    → ReadsResult (at cs (next_line c line)) (read_string (at (c ∷ cs) line))
unfolding read_string
Reads-read_string c cs line =
    Reads-close_string _ _ line (string_from c cs (next_line c line)) (Reads-refl _)
      (Reads-string_from c cs _)

Reads-read_other : (s : Lexer) (r : Token × Lexer) → Reads s r.1 → Reads s (read_other r).1
Reads-read_other s (t, u) h =
    Reads-if_pair (not (same t.kind end)) (some t, u) (none, (advance u).1) h
      (Reads-trans h (Reads-advance u))

word_start : (c : ℕ) → (is_alpha c || c == b'_') ≡ true → is_word c ≡ true
unfolding is_word is_alnum
word_start c h = ground arith

-- What a round of the lexer reads begins with the byte at hand.
pub Reads-read_token :
    (c : ℕ) (cs : Bytes) (line : ℕ)
    → ReadsResult (at cs (next_line c line)) (read_token (at (c ∷ cs) line))
unfolding read_token
Reads-read_token c cs line =
    let s = at (c ∷ cs) line in
    let t = at cs (next_line c line) in
    let other : Result LexError (Option Token × Lexer) = ok (read_other (read_operator s)) in
    let quoted = if c == b'\'' || c == b'"' then found_string (read_string s) else other in
    let numeric = if is_digit c then ok (found (read_number s)) else quoted in
    ReadsResult-if t (is_alpha c || c == b'_') (ok (found (read_word s))) numeric
      (λ h. Reads-span_from_cons is_word c cs line (word_start c h))
      (ReadsResult-if t (is_digit c) (ok (found (read_number s))) quoted
        (λ h. Reads-span_from_cons is_digit c cs line h)
        (ReadsResult-if t (c == b'\'' || c == b'"') (found_string (read_string s)) other
          (λ _. Reads-found_string t (read_string s) (Reads-read_string c cs line))
          (Reads-read_other t (read_operator s) (Reads-read_operator c cs line))))
