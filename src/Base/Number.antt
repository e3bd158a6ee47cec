-- ===== src/Base/Number.antt =====
-- `std::stoi` and `std::stoll`, the longest decimal number at the front of a text, and
-- `std::to_string`.
use Prim.Native.Nat.{ℕ, zero, suc, ◌+◌, ◌-◌, ◌*◌, ◌/◌, ◌%◌, ◌^◌}
use mathlib.Core.Bool.{Bool, true, false}
use mathlib.Core.List.{[], ◌∷◌, ◌++◌}
use dbms_project_sp.Base.Tests.{ltb, leb, ◌==◌, if◌then◌else◌}
use dbms_project_sp.Base.Outcome.{Result, ok, err}
use dbms_project_sp.Base.Text.{Bytes, is_digit, is_space}
use dbms_project_sp.Base.Int.{ℤ, pos, negsuc}

pub data NumberError : Type 0 where
  -- `std::invalid_argument` and `std::out_of_range`
  no_conversion out_of_range : NumberError

-- The value of the digits at the front, and the text behind them.
unfoldable pub digits_from : ℕ → Bytes → ℕ × Bytes
digits_from n [] = (n, [])
digits_from n (c ∷ cs) =
    let more = digits_from (n * 10 + (c - 48)) cs in if is_digit c then more else (n, c ∷ cs)

abbrev pub signed : Bool → ℕ → ℤ
signed false n = pos n
signed true zero = pos 0
signed true (suc n) = negsuc n

abbrev starts_digit : Bytes → Bool
starts_digit [] = false
starts_digit (c ∷ cs) = is_digit c

-- `bound` is one more than the greatest value of the type.
abbrev in_range : ℕ → Bool → ℕ → Bool
in_range bound false n = ltb n bound
in_range bound true n = leb n bound

unsigned_part : ℕ → Bool → Bytes → Result NumberError (ℤ × Bytes)
unfolding is_digit digits_from
unsigned_part bound negative s =
    let (n, rest) = digits_from 0 s in
    if starts_digit s
    then (if in_range bound negative n then ok (signed negative n, rest) else err out_of_range)
    else err no_conversion

unfoldable pub signed_part : ℕ → Bytes → Result NumberError (ℤ × Bytes)
unfolding unsigned_part
signed_part bound [] = err no_conversion
signed_part bound (c ∷ cs) =
    if c == b'-'
    then unsigned_part bound true cs
    else if c == b'+'
    then unsigned_part bound false cs
    else unsigned_part bound false (c ∷ cs)

unfoldable pub skip_blanks : Bytes → Bytes
unfolding is_space
skip_blanks [] = []
skip_blanks (c ∷ cs) = if is_space c then skip_blanks cs else c ∷ cs

-- The number and the text behind it; `*pos` is the length of what was read.
unfoldable pub stoi : Bytes → Result NumberError (ℤ × Bytes)
unfolding signed_part skip_blanks
stoi s = signed_part (2 ^ 31) (skip_blanks s)

unfoldable pub stoll : Bytes → Result NumberError (ℤ × Bytes)
unfolding signed_part skip_blanks
stoll s = signed_part (2 ^ 63) (skip_blanks s)

-- The digits of a number, given as many rounds as it has digits.
unfoldable pub digits : ℕ → ℕ → Bytes
digits zero n = []
digits (suc fuel) n =
    let front = digits fuel (n / 10) in
    if ltb n 10 then (n + b'0') ∷ [] else front ++ (n % 10 + b'0') ∷ []

-- `std::to_string` of a number of 64 bits, which has at most 20 digits.
unfoldable pub to_string : ℤ → Bytes
to_string (pos n) = digits 20 n
to_string (negsuc n) = b'-' ∷ digits 20 (suc n)
