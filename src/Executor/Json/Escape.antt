-- ===== src/Executor/Json/Escape.antt =====
-- A text in a JSON answer is read back from it.
use dbms_project_sp.Base.{
  ℕ, ◌/◌, ◌%◌, ◌+◌, ◌*◌, ◌<◌, ◌≡◌, refl, ap, ◌∙◌, [], ◌∷◌, ◌++◌, append_assoc, some, Bytes, codes,
  arith,
}
use dbms_project_sp.Base.JsonText.{plain, read_text, prepend, hex_value}
use dbms_project_sp.Executor.RequestId.{hex, hex_digit}
use dbms_project_sp.Executor.Json.{escape_byte, escape_json_string}

hex_value-digit : (d : ℕ) → hex_value (hex_digit (d % 16)) ≡ d % 16
hex_value-digit d = ground arith

code_value :
    (c : ℕ)
    → c < 32
    → (((0 * 16 + c / 16 / 16 / 16 % 16) * 16 + c / 16 / 16 % 16) * 16 + c / 16 % 16) * 16 + c % 16
      ≡ c
code_value c h = omega (arith, h)

read_code :
    (c : ℕ) (t : Bytes)
    → c < 32
    → read_text plain (codes "\\u" ++ hex 4 c ++ t) ≡ prepend c (read_text plain t)
unfolding read_text hex
read_code c t h = rw (
  hex_value-digit (c / 16 / 16 / 16),
  hex_value-digit (c / 16 / 16),
  hex_value-digit (c / 16),
  hex_value-digit c,
  code_value c h,
)

read_byte :
    (c : ℕ) (t : Bytes) → read_text plain (escape_byte c ++ t) ≡ prepend c (read_text plain t)
unfolding read_text escape_byte
read_byte c t = ground (arith, read_code c t)

-- Every text is read back from what `escape_json_string` writes of it and a closing quote, whatever
-- stands behind that.
pub escape_json_string-read :
    (s rest : Bytes) → read_text plain (escape_json_string s ++ b'"' ∷ rest) ≡ some (s, rest)
unfolding escape_json_string
escape_json_string-read [] rest = unfold read_text in refl
escape_json_string-read (c ∷ s) rest =
    ap (read_text plain) (append_assoc (escape_byte c) (escape_json_string s) (b'"' ∷ rest))
    ∙ read_byte c (escape_json_string s ++ b'"' ∷ rest)
    ∙ ap (prepend c) (escape_json_string-read s rest)
