-- ===== src/Engine/Json/Read.antt =====
-- Which texts of a row are read back from the JSON of SELECT.
use dbms_project_sp.Base.{
  ℕ, ◌≡◌, refl, ap, ◌∙◌, Bool, true, false, ◌&&◌, ◌||◌, [], ◌∷◌, ◌++◌, append_assoc, Option, none,
  some, if◌then◌else◌, leb, ◌==◌, Bytes, arith,
}
use dbms_project_sp.Base.JsonText.{plain, read_text, prepend}
use dbms_project_sp.Engine.Json.{escape_char, escape_json}

-- A character that `escape_json` writes as JSON wants it.
abbrev is_written : ℕ → Bool
is_written c = leb 32 c || c == b'\n' || c == b'\r' || c == b'\t'

unfoldable pub all_written : Bytes → Bool
all_written [] = true
all_written (c ∷ s) = is_written c && all_written s

read_char :
    (c : ℕ) (t : Bytes)
    → read_text plain (escape_char c ++ t)
      ≡ (if is_written c then prepend c (read_text plain t) else none)
unfolding read_text escape_char
read_char c t = ground arith

prepend-if :
    (c : ℕ) (a b : Bool) (s rest : Bytes) (r : Option (Bytes × Bytes))
    → r ≡ (if b then some (s, rest) else none)
    → (if a then prepend c r else none) ≡ (if a && b then some (c ∷ s, rest) else none)
prepend-if c true true s rest r h = ap (prepend c) h
prepend-if c true false s rest r h = ap (prepend c) h
prepend-if c false b s rest r h = refl

-- A text that SELECT prints is read back from its JSON exactly when it has no control character but
-- newlines, carriage returns and tabs; with another one a reader of JSON refuses it.
pub escape_json-read :
    (s rest : Bytes)
    → read_text plain (escape_json s ++ b'"' ∷ rest)
      ≡ (if all_written s then some (s, rest) else none)
unfolding escape_json all_written
escape_json-read [] rest = unfold read_text in refl
escape_json-read (c ∷ s) rest =
    ap (read_text plain) (append_assoc (escape_char c) (escape_json s) (b'"' ∷ rest))
    ∙ read_char c (escape_json s ++ b'"' ∷ rest)
    ∙ prepend-if c (is_written c) (all_written s) s rest _ (escape_json-read s rest)
